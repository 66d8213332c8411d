-- ===== src/Agent/State/Tests.antt =====
-- Runs of src/agent/state.ts, and each theorem about it at a concrete input.
use abracadabra.Common.{ℕ, ◌≡◌, refl, true, false, some, [], ◌∷◌, err, arith, length}
use abracadabra.Agent.Buffers.{Bytes, read, IsZero}
use abracadabra.Agent.Grants
use abracadabra.Agent.State
use abracadabra.Agent.State.{AgentState, init, locked}
use abracadabra.Agent.State.Expiry.{max_age_ends}
use abracadabra.Agent.State.Race.{unlock_overlap}

abbrev key32 : ℕ → Bytes
key32 b =
    b ∷ b ∷ b ∷ b ∷ b ∷ b ∷ b ∷ b ∷ b ∷ b ∷ b ∷ b ∷ b ∷ b ∷ b ∷ b ∷ b ∷ b ∷ b ∷ b ∷ b ∷ b ∷ b ∷ b
    ∷ b ∷ b ∷ b ∷ b ∷ b ∷ b ∷ b ∷ b ∷ []

abbrev fresh : AgentState
fresh = init 900000 28800000

-- Unlocked at 1000: locked by its max age at 28801000, and no earlier.
abbrev unlocked : AgentState
unlocked = (State.unlock_finish fresh (key32 7) 1000).0

lock_tests :
    ((State.is_locked unlocked 28800999).1 ≡ false)
    × ((State.is_locked unlocked 28801000).1 ≡ true)
    × (unlocked.idle_timer ≡ some 901000)
unfolding State.is_locked State.enforce_max_age State.unlock_finish State.hold State.touch
    State.arm_idle_timer State.arm_max_age_timer State.lock
lock_tests = (refl, refl, refl)

abbrev held : AgentState
held = record fresh {
  heap = key32 7 ∷ [];
  key = some 0;
  unlocked_at = 1000;
  last_activity_at = 1000;
}

max_age_ends_example :
    (State.is_locked held 28801000 ≡ (State.lock held, true))
    × (State.require_key held 28801000 ≡ (State.lock held, err locked))
    × (State.unlock_begin held 28801000 ≡ (State.lock held, true))
    × ((State.status held 28801000).0 ≡ State.lock held)
    × ((State.status held 28801000).1.locked ≡ true)
    × IsZero (read (State.lock held).heap 0)
    × ((State.lock held).grants ≡ Grants.empty_store)
max_age_ends_example = max_age_ends held 28801000 0 refl (omega arith) (omega arith)

-- Two calls of `unlock` from a locked agent; after the lock, buffer 0 still holds the key.
unlock_overlap_example :
    read
      (State.lock
        (State.unlock_finish (State.unlock_finish fresh (key32 7) 1000).0 (key32 7) 1001).0).heap
      (length fresh.heap)
    ≡ key32 7
unlock_overlap_example = unlock_overlap fresh (key32 7) (key32 7) 1000 1001 refl refl
