-- ===== src/Agent/Grants/Timer.antt =====
-- The prune timer: while an unexpired grant is stored, the timer is due no later than its expiry.
use abracadabra.Common.{
  ℕ, ◌+◌, ◌-◌, ◌≤◌, ◌<◌, leb, ltb, String, Bool, true, false, ◌≡◌, refl, Option, none, some, List,
  [], ◌∷◌, arith, inl, inr, Bool-cases, Option-cases, Result, ok, err, All, All-map, if◌then◌else◌,
}
use abracadabra.Common.Maps
use abracadabra.Common.Maps.{Map}
use abracadabra.Common.Numbers.{Number}
use abracadabra.Agent.Grants
use abracadabra.Agent.Grants.Invariant.{
  IsStore, All-prune_loop, grants-add, add_err, add-IsStore, list-IsStore, check-IsStore,
  revoke-IsStore, prune_timer_fires-IsStore, empty_store-IsStore,
}
use abracadabra.Agent.Grants.{
  GrantCaller, Grant, GrantStore, GrantError, empty_store, arm_prune_timer, sooner,
  next_expiry_from, prune_loop, prune_expired, prune_timer_fires, non_empty, or_else,
}

-- If the grant has not expired, the timer is set and due by its expiry.
abbrev pub DueBy : ℕ → Option ℕ → String × Grant → Type 0
DueBy now timer e = now < e.1.expires_at → (t : ℕ) × (timer ≡ some t) × (t ≤ e.1.expires_at)

abbrev pub IsTimed : ℕ → GrantStore → Type 0
IsTimed now s = All (DueBy now s.prune_timer) s.grants

next_expiry_from-le :
    (now a : ℕ) (m : Map Grant) → (b : ℕ) × (next_expiry_from now (some a) m ≡ some b) × (b ≤ a)
unfolding next_expiry_from
next_expiry_from-le now a [] = (a, refl, omega arith)
next_expiry_from-le now a ((id, g) ∷ m) = elim (Bool-cases (leb g.expires_at now)) [
  | inl e ↦ rw (e, next_expiry_from) (next_expiry_from-le now a m)
  | inr e ↦ elim (Bool-cases (ltb (g.expires_at - now) a)) [
    | inl f ↦
        let (b, p, q) = next_expiry_from-le now (g.expires_at - now) m in
        rw (e, f) (b, p, ground arith)
    | inr f ↦ rw (e, f) (next_expiry_from-le now a m)
  ]
]

next_expiry_from-head :
    (now : ℕ) (acc : Option ℕ) (id : String) (g : Grant) (m : Map Grant)
    → now < g.expires_at
    → (b : ℕ) × (next_expiry_from now acc ((id, g) ∷ m) ≡ some b) × (now + b ≤ g.expires_at)
unfolding next_expiry_from
next_expiry_from-head now none id g m h =
    let (b, p, q) = next_expiry_from-le now (g.expires_at - now) m in
    (b, ground arith, ground arith)
next_expiry_from-head now (some a) id g m h = elim (Bool-cases (ltb (g.expires_at - now) a)) [
  | inl f ↦
      let (b, p, q) = next_expiry_from-le now (g.expires_at - now) m in
      (b, ground arith, ground arith)
  | inr f ↦ let (b, p, q) = next_expiry_from-le now a m in (b, ground arith, ground arith)
]

next_expiry_from-All :
    (now : ℕ) (acc : Option ℕ) (m : Map Grant)
    → All
        (λ e.
          now < e.1.expires_at
          → (b : ℕ) × (next_expiry_from now acc m ≡ some b) × (now + b ≤ e.1.expires_at))
        m
unfolding next_expiry_from
next_expiry_from-All now acc [] = tt
next_expiry_from-All now acc ((id, g) ∷ m) = (
  next_expiry_from-head now acc id g m,
  next_expiry_from-All now (if leb g.expires_at now then acc else sooner (g.expires_at - now) acc)
      m,
)

-- Arming sets the timer for the first expiry to come.
arm_prune_timer-IsTimed : (s : GrantStore) (now : ℕ) → IsTimed now (arm_prune_timer s now)
unfolding arm_prune_timer
arm_prune_timer-IsTimed s now =
    All-map s.grants (λ e due h. let (b, p, q) = due h in (now + b, ground arith, q))
      (next_expiry_from-All now none s.grants)

-- Time that passes makes no timer late.
pub IsTimed-later : (s : GrantStore) {now later : ℕ} → now ≤ later → IsTimed now s → IsTimed later s
IsTimed-later s le = All-map s.grants (λ e due h. due (omega arith))

prune_expired-IsTimed :
    (s : GrantStore) (now : ℕ) → IsTimed now s → IsTimed now (prune_expired s now).0
unfolding prune_expired
prune_expired-IsTimed s now v = elim (Bool-cases (ltb 0 (prune_loop now s.grants).1)) [
  | inl e ↦ rw e (arm_prune_timer-IsTimed _ now)
  | inr e ↦ rw e (All-prune_loop (DueBy now s.prune_timer) now s.grants v)
]

-- The calls that a store receives, each at a time; `fire` is the timer's callback.
pub data GrantCall : Type 0 where
  add : String → GrantCaller → Number → String → GrantCall
  list fire : GrantCall
  revoke : Bool → Option String → Option String → GrantCall
  check : String → GrantCaller → GrantCall

pub call : GrantStore → ℕ → GrantCall → GrantStore
call s now (GrantCall.add project caller ttl id) = (Grants.add s project caller ttl now id).0
call s now GrantCall.list = (Grants.list s now).0
call s now fire = prune_timer_fires s now
call s now (GrantCall.revoke all grant_id id) = (Grants.revoke s all grant_id id now).0
call s now (GrantCall.check project caller) = (Grants.check s project caller now).0

add-IsTimed :
    (s : GrantStore) (project : String) (caller : GrantCaller) (ttl : Number) (now : ℕ)
    (id : String)
    → IsTimed now s
    → IsTimed now (Grants.add s project caller ttl now id).0
add-IsTimed s project caller ttl now id v = go (Grants.add s project caller ttl now id).1 refl
  where
    go :
        (r : Result GrantError Grant)
        → (Grants.add s project caller ttl now id).1 ≡ r
        → IsTimed now (Grants.add s project caller ttl now id).0
    go (err e) h = rw (add_err s project caller ttl now id h) v
    go (ok g) h = rw (grants-add s project caller ttl now id h) (arm_prune_timer-IsTimed _ now)

revoke-IsTimed :
    (s : GrantStore) (all : Bool) (grant_id id : Option String) (now : ℕ)
    → IsTimed now s
    → IsTimed now (Grants.revoke s all grant_id id now).0
unfolding Grants.revoke Grants.clear
revoke-IsTimed s true grant_id id now v = tt
revoke-IsTimed s false grant_id id now v = elim (Option-cases (non_empty (or_else grant_id id))) [
  | inl e ↦ rw (e, Grants.revoke) v
  | inr (t, e) ↦ elim (Bool-cases (Maps.has t s.grants)) [
    | inl h ↦ rw (e, h, Grants.revoke) (arm_prune_timer-IsTimed _ now)
    | inr h ↦ rw (e, h, Grants.revoke) v
  ]
]

call-IsTimed :
    (s : GrantStore) (now : ℕ) (c : GrantCall) → IsTimed now s → IsTimed now (call s now c)
unfolding call Grants.check Grants.list prune_timer_fires
call-IsTimed s now (GrantCall.add project caller ttl id) v =
    add-IsTimed s project caller ttl now id v
call-IsTimed s now GrantCall.list v = prune_expired-IsTimed s now v
call-IsTimed s now fire v = arm_prune_timer-IsTimed _ now
call-IsTimed s now (GrantCall.revoke all grant_id id) v = revoke-IsTimed s all grant_id id now v
call-IsTimed s now (GrantCall.check project caller) v = prune_expired-IsTimed s now v

call-IsStore : (s : GrantStore) (now : ℕ) (c : GrantCall) → IsStore s → IsStore (call s now c)
unfolding call
call-IsStore s now (GrantCall.add project caller ttl id) v =
    add-IsStore s project caller ttl now id v
call-IsStore s now GrantCall.list v = list-IsStore now v
call-IsStore s now fire v = prune_timer_fires-IsStore now v
call-IsStore s now (GrantCall.revoke all grant_id id) v = revoke-IsStore all grant_id id now v
call-IsStore s now (GrantCall.check project caller) v = check-IsStore project caller now v

-- A run: each call comes some milliseconds after the one before it.
unfoldable pub run : GrantStore → ℕ → List (ℕ × GrantCall) → GrantStore × ℕ
unfolding call
run s now [] = (s, now)
run s now ((delay, c) ∷ rest) = run (call s (now + delay) c) (now + delay) rest

run-IsStore :
    (s : GrantStore) (now : ℕ) (calls : List (ℕ × GrantCall))
    → IsStore s
    → IsTimed now s
    → IsStore (run s now calls).0 × IsTimed (run s now calls).1 (run s now calls).0
unfolding run
run-IsStore s now [] v t = (v, t)
run-IsStore s now ((delay, c) ∷ rest) v t =
    run-IsStore (call s (now + delay) c) (now + delay) rest (call-IsStore s (now + delay) c v)
      (call-IsTimed s (now + delay) c (IsTimed-later s (omega arith) t))

-- Whatever a fresh store is asked and whenever its timer fires, every grant stands once, under its
-- own id, with a lifetime of 60 s to 8 h and a complete caller; and for every grant that has not
-- expired the timer is set and due by the grant's expiry.
pub run-IsTimed :
    (now : ℕ) (calls : List (ℕ × GrantCall))
    → IsStore (run empty_store now calls).0
      × IsTimed (run empty_store now calls).1 (run empty_store now calls).0
run-IsTimed now calls = run-IsStore empty_store now calls empty_store-IsStore tt
