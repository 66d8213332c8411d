-- ===== src/Agent/State/Invariant.antt =====
-- What the fields of an agent say of one another, and that every method keeps it.
use abracadabra.Common.{
  ℕ, ◌+◌, ◌≤◌, ◌<◌, leb, ◌==◌, ◌≡◌, ◌≢◌, refl, sym, ap, Option, none, some, [], ◌∷◌, arith, inl,
  inr, Bool-cases, length, length-append, ==_iff, if◌then◌else◌, not, ◌||◌,
}
use mathlib.Core.Path.{subst}
use abracadabra.Agent.Buffers.{
  Bytes, Heap, read, IsZero, read-fill_self, read-fill_ne, read-alloc_new, read-alloc_old, alloc,
}
use abracadabra.Agent.Grants
use abracadabra.Agent.Grants.{GrantStore}
use abracadabra.Agent.State.{
  AgentState, init, lock, wiped, has_key, enforce_max_age, arm_idle_timer, touch, arm_max_age_timer,
  unlock_begin, hold, unlock_finish, unlock_with_key,
}

-- Locked: no timer runs and no grant is held. Unlocked: the key is a live buffer of 32 bytes, and
-- each lock that is switched on has its timer set.
abbrev pub Fits : Option ℕ → AgentState → Type 0
Fits none s = (s.idle_timer ≡ none) × (s.max_age_timer ≡ none) × (s.grants ≡ Grants.empty_store)
Fits (some a) s =
    (length (read s.heap a) ≡ 32)
    × (a < length s.heap)
    × (0 < s.idle_ms → s.idle_timer ≡ some (s.last_activity_at + s.idle_ms))
    × (0 < s.max_age_ms → s.max_age_timer ≡ some (s.unlocked_at + s.max_age_ms))
    × (s.unlocked_at ≤ s.last_activity_at)

abbrev pub IsConsistent : AgentState → Type 0
IsConsistent s = Fits s.key s

-- Every key buffer but the live one holds zeros.
abbrev pub IsWiped : AgentState → Type 0
IsWiped s = (a : ℕ) → s.key ≢ some a → IsZero (read s.heap a)

pub init-IsConsistent : (idle max : ℕ) → IsConsistent (init idle max)
init-IsConsistent idle max = (refl, refl, refl)

pub init-IsWiped : (idle max : ℕ) → IsWiped (init idle max)
unfolding read
init-IsWiped idle max a h = tt

pub lock-IsConsistent : (s : AgentState) → IsConsistent (lock s)
unfolding lock Grants.clear
lock-IsConsistent s = (refl, refl, refl)

pub wiped-IsZero :
    (k : Option ℕ) (h : Heap)
    → ((a : ℕ) → k ≢ some a → IsZero (read h a))
    → (a : ℕ) → IsZero (read (wiped k h) a)
wiped-IsZero none h w a = w a (λ e. cc)
wiped-IsZero (some k) h w a = elim (Bool-cases (k == a)) [
  | inl e ↦ rw (← (==_iff k a).0 e) (read-fill_self h k)
  | inr e ↦
      let ne : k ≢ a = λ p. ground (arith, p) in
      rw (read-fill_ne h k a ne) (w a (λ p. ne (ground arith)))
]

pub lock-IsWiped : (s : AgentState) → IsWiped s → IsWiped (lock s)
unfolding lock
lock-IsWiped s w a h = wiped-IsZero s.key s.heap w a

-- The check of the max age leaves the agent as it is, or locks it.
pub enforce_max_age_ind :
    (P : AgentState → Type 0) (s : AgentState) (now : ℕ)
    → P s
    → P (lock s)
    → P (enforce_max_age s now)
unfolding enforce_max_age
enforce_max_age_ind P s now p q = elim (Bool-cases (not (has_key s.key) || leb s.max_age_ms 0)) [
  | inl e ↦ rw e p
  | inr e ↦ elim (Bool-cases (leb (s.unlocked_at + s.max_age_ms) now)) [
    | inl f ↦ rw (e, f) q
    | inr f ↦ rw (e, f) p
  ]
]

pub enforce_max_age-IsConsistent :
    (s : AgentState) (now : ℕ) → IsConsistent s → IsConsistent (enforce_max_age s now)
enforce_max_age-IsConsistent s now c =
    enforce_max_age_ind IsConsistent s now c (lock-IsConsistent s)

pub enforce_max_age-IsWiped :
    (s : AgentState) (now : ℕ) → IsWiped s → IsWiped (enforce_max_age s now)
enforce_max_age-IsWiped s now w = enforce_max_age_ind IsWiped s now w (lock-IsWiped s w)

Fits-touch :
    (s : AgentState) (now : ℕ)
    → s.unlocked_at ≤ now
    → (k : Option ℕ) → s.key ≡ k
    → Fits k s
    → Fits k (touch s now)
unfolding touch arm_idle_timer
Fits-touch s now le none e c = ground arith
Fits-touch s now le (some a) e c =
    (ground arith, ground arith, ground arith, ground arith, ground arith)

pub key-touch : (s : AgentState) (now : ℕ) → (touch s now).key ≡ s.key
unfolding touch arm_idle_timer
key-touch s now = ground arith

pub heap-touch : (s : AgentState) (now : ℕ) → (touch s now).heap ≡ s.heap
unfolding touch arm_idle_timer
heap-touch s now = ground arith

pub touch-IsConsistent :
    (s : AgentState) (now : ℕ) → s.unlocked_at ≤ now → IsConsistent s → IsConsistent (touch s now)
touch-IsConsistent s now le c =
    subst (λ k. Fits k (touch s now)) (sym (key-touch s now)) (Fits-touch s now le s.key refl c)

pub touch-IsWiped : (s : AgentState) (now : ℕ) → IsWiped s → IsWiped (touch s now)
touch-IsWiped s now w a h = rw heap-touch (w a (rw key-touch at h))

-- The state that `hold` leaves: the copy of the key is live, and both ages count from now.
pub hold_lem :
    (s : AgentState) (key : Bytes) (now : ℕ)
    → hold s key now ≡ record s {
      heap = alloc s.heap key;
      key = some (length s.heap);
      unlocked_at = now;
      last_activity_at = now;
      idle_timer = if leb s.idle_ms 0 then none else some (now + s.idle_ms);
      max_age_timer = if leb s.max_age_ms 0 then none else some (now + s.max_age_ms);
    }
unfolding hold touch arm_idle_timer arm_max_age_timer
hold_lem s key now = ground arith

pub hold-IsConsistent :
    (s : AgentState) (key : Bytes) (now : ℕ) → length key ≡ 32 → IsConsistent (hold s key now)
hold-IsConsistent s key now h = subst IsConsistent (sym (hold_lem s key now)) (
  rw read-alloc_new h,
  omega (arith, length-append s.heap (key ∷ [])),
  ground arith,
  ground arith,
  omega arith,
)

-- Taking a key while none is held leaves no stray copy.
pub hold-IsWiped :
    (s : AgentState) (key : Bytes) (now : ℕ)
    → ((a : ℕ) → IsZero (read s.heap a))
    → IsWiped (hold s key now)
hold-IsWiped s key now w =
    subst IsWiped (sym (hold_lem s key now))
      (λ a h. rw (read-alloc_old s.heap key a (λ e. h (ap some (sym e)))) (w a))

pub unlock_with_key-IsConsistent :
    (s : AgentState) (key : Bytes) (now : ℕ)
    → IsConsistent s
    → IsConsistent (unlock_with_key s key now).0
unfolding unlock_with_key
unlock_with_key-IsConsistent s key now c = elim (Bool-cases (length key == 32)) [
  | inl e ↦ rw e (hold-IsConsistent _ key now ((==_iff _ _).0 e))
  | inr e ↦ rw e c
]

pub unlock_with_key-IsWiped :
    (s : AgentState) (key : Bytes) (now : ℕ) → IsWiped s → IsWiped (unlock_with_key s key now).0
unfolding unlock_with_key
unlock_with_key-IsWiped s key now w = elim (Bool-cases (length key == 32)) [
  | inl e ↦ rw e (hold-IsWiped _ key now (wiped-IsZero s.key s.heap w))
  | inr e ↦ rw e w
]

-- `unlock` lets go of the buffer that resolveMasterKey gave.
abbrev pub with_resolved : AgentState → Bytes → AgentState
with_resolved s key = record s { resolved = alloc s.resolved key }

Fits-with_resolved :
    (k : Option ℕ) (s : AgentState) (key : Bytes) → Fits k s → Fits k (with_resolved s key)
Fits-with_resolved none s key c = c
Fits-with_resolved (some a) s key c = c

pub unlock_finish-IsConsistent :
    (s : AgentState) (key : Bytes) (now : ℕ)
    → IsConsistent s
    → IsConsistent (unlock_finish s key now).0
unfolding unlock_finish
unlock_finish-IsConsistent s key now c = elim (Bool-cases (length key == 32)) [
  | inl e ↦ rw e (hold-IsConsistent (with_resolved s key) key now ((==_iff _ _).0 e))
  | inr e ↦ rw e (Fits-with_resolved s.key s key c)
]

-- The answer of `resolveMasterKey` is taken without a look at the key that may be held by then, so
-- this needs that there is none.
pub unlock_finish-IsWiped :
    (s : AgentState) (key : Bytes) (now : ℕ)
    → s.key ≡ none
    → IsWiped s
    → IsWiped (unlock_finish s key now).0
unfolding unlock_finish
unlock_finish-IsWiped s key now n w = elim (Bool-cases (length key == 32)) [
  | inl e ↦ rw e (hold-IsWiped (with_resolved s key) key now (λ a. w a (λ p. cc)))
  | inr e ↦ rw e w
]

key-unlocked_at :
    (s : AgentState) (now : ℕ) → s.unlocked_at ≤ now → (enforce_max_age s now).unlocked_at ≤ now
key-unlocked_at s now le =
    enforce_max_age_ind (λ t. t.unlocked_at ≤ now) s now le (unfold lock in omega arith)

pub unlock_begin-IsConsistent :
    (s : AgentState) (now : ℕ)
    → s.unlocked_at ≤ now
    → IsConsistent s
    → IsConsistent (unlock_begin s now).0
unfolding unlock_begin
unlock_begin-IsConsistent s now le c =
    let s' = enforce_max_age s now in
    let c' = enforce_max_age-IsConsistent s now c in
    elim (Bool-cases (has_key s'.key)) [
      | inl e ↦ rw e (touch-IsConsistent s' now (key-unlocked_at s now le) c')
      | inr e ↦ rw e c'
    ]

pub unlock_begin-IsWiped : (s : AgentState) (now : ℕ) → IsWiped s → IsWiped (unlock_begin s now).0
unfolding unlock_begin
unlock_begin-IsWiped s now w =
    let s' = enforce_max_age s now in
    let w' = enforce_max_age-IsWiped s now w in
    elim (Bool-cases (has_key s'.key)) [ inl e ↦ rw e (touch-IsWiped s' now w') | inr e ↦ rw e w' ]
