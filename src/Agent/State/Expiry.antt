-- ===== src/Agent/State/Expiry.antt =====
-- The absolute max age, the idle lock, and what a lock leaves behind.
use abracadabra.Common.{ℕ, ◌+◌, ◌≤◌, ◌<◌, true, ◌≡◌, ◌↔◌, ◌⊎◌, refl, none, some, arith, err}
use abracadabra.Agent.Buffers.{read, IsZero, read-fill_self}
use abracadabra.Agent.Grants
use abracadabra.Agent.State.{
  AgentState, locked, lock, enforce_max_age, arm_idle_timer, touch, is_locked, status, require_key,
  unlock_begin,
}

-- An agent is locked exactly when it holds no key, or its max age is switched on and is over.
pub is_locked_iff :
    (s : AgentState) (now : ℕ)
    → ((is_locked s now).1 ≡ true)
      ↔ ((s.key ≡ none) ⊎ ((0 < s.max_age_ms) × (s.unlocked_at + s.max_age_ms ≤ now)))
unfolding is_locked enforce_max_age lock
is_locked_iff s now = ground arith

-- Once the max age is over, whichever method looks first locks the agent: the key buffer holds
-- zeros, no grant is left, and the method answers as for a locked agent.
pub max_age_ends :
    (s : AgentState) (now a : ℕ)
    → s.key ≡ some a
    → 0 < s.max_age_ms
    → s.unlocked_at + s.max_age_ms ≤ now
    → (is_locked s now ≡ (lock s, true))
      × (require_key s now ≡ (lock s, err locked))
      × (unlock_begin s now ≡ (lock s, true))
      × ((status s now).0 ≡ lock s)
      × ((status s now).1.locked ≡ true)
      × IsZero (read (lock s).heap a)
      × ((lock s).grants ≡ Grants.empty_store)
unfolding is_locked require_key unlock_begin status enforce_max_age lock Grants.clear
max_age_ends s now a k on over = (
  ground arith,
  ground arith,
  ground arith,
  ground arith,
  ground arith,
  rw k (read-fill_self s.heap a),
  refl,
)

-- While an agent holds a key, activity moves the idle lock to `idle_ms` from now, and moves neither
-- the time of the unlock nor the timer of the max age.
pub touch_lem :
    (s : AgentState) (now a : ℕ)
    → s.key ≡ some a
    → 0 < s.idle_ms
    → ((touch s now).idle_timer ≡ some (now + s.idle_ms))
      × ((touch s now).unlocked_at ≡ s.unlocked_at)
      × ((touch s now).max_age_timer ≡ s.max_age_timer)
      × ((touch s now).key ≡ s.key)
      × ((touch s now).grants ≡ s.grants)
unfolding touch arm_idle_timer
touch_lem s now a k on = (ground arith, ground arith, ground arith, ground arith, ground arith)
