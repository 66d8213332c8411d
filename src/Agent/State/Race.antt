-- ===== src/Agent/State/Race.antt =====
-- `unlock` waits for the keystore between its test for a key and its write of one, so two calls
-- can overlap.
use abracadabra.Common.{ℕ, ◌≡◌, refl, none, [], ◌∷◌, arith, length, length-append}
use abracadabra.Agent.Buffers.{
  Bytes, alloc, read, read-alloc_new, read-alloc_old, read-fill_ne, IsZero,
}
use abracadabra.Agent.State.{AgentState, lock, hold, unlock_finish, enforce_max_age, unlock_begin}
use abracadabra.Agent.State.Invariant.{
  IsWiped, with_resolved, hold_lem, unlock_finish-IsWiped, unlock_begin-IsWiped, lock-IsWiped,
}

unlock_finish-hold :
    (s : AgentState) (key : Bytes) (now : ℕ)
    → length key ≡ 32
    → (unlock_finish s key now).0 ≡ hold (with_resolved s key) key now
unfolding unlock_finish
unlock_finish-hold s key now h = rw h

-- Where two overlapping calls of `unlock` both find a 32-byte key, the lock that follows zeroes
-- only the copy of the second: the copy of the first is still in memory.
pub unlock_overlap :
    (s : AgentState) (k1 k2 : Bytes) (t1 t2 : ℕ)
    → length k1 ≡ 32
    → length k2 ≡ 32
    → read (lock (unlock_finish (unlock_finish s k1 t1).0 k2 t2).0).heap (length s.heap) ≡ k1
unfolding lock
unlock_overlap s k1 k2 t1 t2 h1 h2 =
    let longer = length-append s.heap (k1 ∷ []) in
    rw
      (
        unlock_finish-hold s k1 t1 h1,
        unlock_finish-hold (hold (with_resolved s k1) k1 t1) k2 t2 h2,
        hold_lem,
        hold_lem,
      )
      (rw
        (
          read-fill_ne (alloc (alloc s.heap k1) k2) (length (alloc s.heap k1)) (length s.heap)
              (λ e. omega arith),
          read-alloc_old (alloc s.heap k1) k2 (length s.heap) (λ e. omega arith),
          read-alloc_new,
        )
        refl)

unlock_begin-none : (s : AgentState) (now : ℕ) → s.key ≡ none → (unlock_begin s now).0.key ≡ none
unfolding unlock_begin enforce_max_age lock
unlock_begin-none s now n = ground arith

-- A call that is alone leaves nothing of the agent's own: begun on a locked agent and finished before
-- any other, then locked, it leaves zeros in every key buffer that the agent has allocated.
pub unlock_alone :
    (s : AgentState) (k : Bytes) (t1 t2 a : ℕ)
    → s.key ≡ none
    → IsWiped s
    → IsZero (read (lock (unlock_finish (unlock_begin s t1).0 k t2).0).heap a)
unlock_alone s k t1 t2 a n w =
    let s' = (unlock_begin s t1).0 in
    let w' =
      unlock_finish-IsWiped s' k t2 (unlock_begin-none s t1 n) (unlock_begin-IsWiped s t1 w) in
    lock-IsWiped (unlock_finish s' k t2).0 w' a (unfold lock in (λ e. cc))

-- What the keystore has handed to a call stays as it is: after the lock its buffer still holds the
-- key.
pub resolved-lock :
    (s : AgentState) (k : Bytes) (now : ℕ)
    → length k ≡ 32
    → read (lock (unlock_finish s k now).0).resolved (length s.resolved) ≡ k
unfolding lock
resolved-lock s k now h = rw (unlock_finish-hold s k now h, hold_lem) (read-alloc_new s.resolved k)
