-- ===== src/Agent/Grants/Invariant.antt =====
-- The shape of a grant store, which every method keeps: one entry to an id, each under its own id,
-- with a lifetime in the bounds and a caller that was checked.
use abracadabra.Common.{
  ℕ, ◌+◌, ◌*◌, ◌≤◌, leb, String, str_eq, eq_iff, Bool, true, false, ◌≡◌, refl, Option, none, some,
  [], ◌∷◌, arith, inl, inr, Bool-cases, Option-cases, Result, sym, ◌∙◌, ok, err, All, if◌then◌else◌,
}
use abracadabra.Common.Maps
use abracadabra.Common.Maps.{Map, IsMap, set-IsMap, delete-IsMap, All-set, All-delete}
use abracadabra.Common.Numbers.{Number, nat}
use abracadabra.Common.Texts.{trim}
use abracadabra.Agent.Grants.{
  GrantCaller, Grant, GrantStore, GrantError, empty_store, clear, arm_prune_timer, prune_loop,
  prune_expired, prune_timer_fires, caller_complete, ttl_allowed, add, list, revoke, check,
  non_empty, or_else,
}

pub record IsGrant (e : String × Grant) : Type 0 where
  pub keyed : e.1.id ≡ e.0
  pub at_least : e.1.created_at + 60000 ≤ e.1.expires_at
  pub at_most : e.1.expires_at ≤ e.1.created_at + 28800000
  pub complete : caller_complete e.1.caller ≡ true

pub record IsStore (s : GrantStore) : Type 0 where
  pub is_map : IsMap s.grants
  pub each : All IsGrant s.grants

pub empty_store-IsStore : IsStore empty_store
empty_store-IsStore = record { is_map = tt; each = tt }

abbrev pub live : ℕ → Option Grant → Option Grant
live now none = none
live now (some g) = if leb g.expires_at now then none else some g

pub has-prune_loop :
    (now : ℕ) (k : String) (m : Map Grant)
    → Maps.has k m ≡ false
    → Maps.has k (prune_loop now m).0 ≡ false
unfolding prune_loop Maps.get
has-prune_loop now k [] h = refl
has-prune_loop now k ((j, g) ∷ m) h = ground (arith, has-prune_loop now k m)

pub prune_loop-IsMap : (now : ℕ) (m : Map Grant) → IsMap m → IsMap (prune_loop now m).0
unfolding prune_loop
prune_loop-IsMap now [] h = tt
prune_loop-IsMap now ((j, g) ∷ m) h =
    ground (arith, has-prune_loop now j m, prune_loop-IsMap now m h.1)

pub get-prune_loop :
    (now : ℕ) (k : String) (m : Map Grant)
    → IsMap m
    → Maps.get k (prune_loop now m).0 ≡ live now (Maps.get k m)
unfolding prune_loop Maps.get
get-prune_loop now k [] h = refl
get-prune_loop now k ((j, g) ∷ m) h = ground (arith, eq_iff j k, get-prune_loop now k m h.1, h.0)

pub All-prune_loop :
    (P : String × Grant → Type 0) (now : ℕ) (m : Map Grant) → All P m → All P (prune_loop now m).0
unfolding prune_loop
All-prune_loop P now [] a = tt
All-prune_loop P now ((j, g) ∷ m) a = elim (Bool-cases (leb g.expires_at now)) [
  | inl e ↦ rw e (All-prune_loop P now m a.1)
  | inr e ↦ rw e (a.0, All-prune_loop P now m a.1)
]

pub grants-prune_expired :
    (s : GrantStore) (now : ℕ) → (prune_expired s now).0.grants ≡ (prune_loop now s.grants).0
unfolding prune_expired arm_prune_timer
grants-prune_expired s now = ground arith

arm_prune_timer-IsStore : {s : GrantStore} (now : ℕ) → IsStore s → IsStore (arm_prune_timer s now)
unfolding arm_prune_timer
arm_prune_timer-IsStore now v = record { is_map = v.is_map; each = v.each }

pub prune_expired-IsStore : {s : GrantStore} (now : ℕ) → IsStore s → IsStore (prune_expired s now).0
prune_expired-IsStore {s} now v = record {
  is_map = rw grants-prune_expired (prune_loop-IsMap now s.grants v.is_map);
  each = rw grants-prune_expired (All-prune_loop IsGrant now s.grants v.each);
}

pub prune_timer_fires-IsStore :
    {s : GrantStore} (now : ℕ) → IsStore s → IsStore (prune_timer_fires s now)
unfolding prune_timer_fires
prune_timer_fires-IsStore now v = arm_prune_timer-IsStore now (prune_expired-IsStore now v)

pub clear-IsStore : (s : GrantStore) → IsStore (clear s)
unfolding clear
clear-IsStore s = record { is_map = tt; each = tt }

-- A TTL that passes the test is a whole number in the bounds.
pub ttl_allowed-nat :
    (ttl : Number) → ttl_allowed ttl ≡ true → (n : ℕ) × (ttl ≡ nat n) × (60 ≤ n) × (n ≤ 28800)
ttl_allowed-nat (nat n) h = (n, refl, ground arith, ground arith)
ttl_allowed-nat _ h = absurd (cc)

-- What a successful `add` has checked, and the grant that it returns.
pub record IsAdded (project : String) (caller : GrantCaller) (ttl : Number) (now : ℕ) (id : String)
    (g : Grant) : Type 0 where
  pub n : ℕ
  pub ttl_lem : ttl ≡ nat n
  pub at_least : 60 ≤ n
  pub at_most : n ≤ 28800
  pub project_lem : g.project ≡ trim project
  pub named : str_eq (trim project) "" ≡ false
  pub id_lem : g.id ≡ id
  pub caller_lem : g.caller ≡ caller
  pub complete : caller_complete caller ≡ true
  pub created : g.created_at ≡ now
  pub expires : g.expires_at ≡ now + n * 1000

pub add_ok :
    (s : GrantStore) (project : String) (caller : GrantCaller) (ttl : Number) (now : ℕ)
    (id : String) {g : Grant}
    → (add s project caller ttl now id).1 ≡ ok g
    → IsAdded project caller ttl now id g
unfolding add
add_ok s project caller (nat n) now id h = record {
  n = n;
  ttl_lem = refl;
  at_least = ground arith;
  at_most = ground arith;
  project_lem = ground arith;
  named = ground arith;
  id_lem = ground arith;
  caller_lem = ground arith;
  complete = ground arith;
  created = ground arith;
  expires = ground arith;
}
add_ok s project caller _ now id h = absurd (cc)

module _ (s : GrantStore) (project : String) (caller : GrantCaller) (ttl : Number) (now : ℕ)
    (id : String) where
  abbrev pub added : GrantStore × Result GrantError Grant
  added = add s project caller ttl now id

  -- The entry is written and the timer is armed.
  pub grants-add :
      {g : Grant}
      → added.1 ≡ ok g
      → added.0 ≡ arm_prune_timer (record s { grants = Maps.set id g s.grants }) now
  unfolding add
  grants-add h = ground arith

  -- A call that throws has changed nothing.
  pub add_err : {e : GrantError} → added.1 ≡ err e → added.0 ≡ s
  unfolding add
  add_err h = ground arith

  IsAdded-IsGrant :
      {g : Grant}
      → IsAdded project caller ttl now id g
      → (j : String) → str_eq j id ≡ true
      → IsGrant (j, g)
  IsAdded-IsGrant a j e = record {
    keyed = a.id_lem ∙ sym ((eq_iff j id).0 e);
    at_least = omega (arith, a.at_least, a.expires, a.created);
    at_most = omega (arith, a.at_most, a.expires, a.created);
    complete = rw a.caller_lem a.complete;
  }

  pub add-IsStore : IsStore s → IsStore added.0
  add-IsStore v = go added.1 refl
    where
      go : (r : Result GrantError Grant) → added.1 ≡ r → IsStore added.0
      go (err e) h = rw (add_err h) v
      go (ok g) h = rw (grants-add h) (
          arm_prune_timer-IsStore now (record {
            is_map = set-IsMap id g s.grants v.is_map;
            each =
                All-set IsGrant id g s.grants
                  (IsAdded-IsGrant (add_ok s project caller ttl now id h)) v.each;
          }))

pub list-IsStore : {s : GrantStore} (now : ℕ) → IsStore s → IsStore (list s now).0
unfolding list
list-IsStore now v = prune_expired-IsStore now v

pub check-IsStore :
    {s : GrantStore} (project : String) (caller : GrantCaller) (now : ℕ)
    → IsStore s
    → IsStore (check s project caller now).0
unfolding check
check-IsStore project caller now v = prune_expired-IsStore now v

delete-IsStore :
    {s : GrantStore} (k : String) (now : ℕ)
    → IsStore s
    → IsStore (arm_prune_timer (record s { grants = Maps.delete k s.grants }) now)
delete-IsStore {s} k now v = arm_prune_timer-IsStore now (record {
  is_map = delete-IsMap k s.grants v.is_map;
  each = All-delete IsGrant k s.grants v.each;
})

pub revoke-IsStore :
    {s : GrantStore} (all : Bool) (grant_id id : Option String) (now : ℕ)
    → IsStore s
    → IsStore (revoke s all grant_id id now).0
unfolding revoke
revoke-IsStore true grant_id id now v = clear-IsStore _
revoke-IsStore {s} false grant_id id now v = elim (Option-cases (non_empty (or_else grant_id id))) [
  | inl e ↦ rw (e, revoke) v
  | inr (t, e) ↦ elim (Bool-cases (Maps.has t s.grants)) [
    | inl h ↦ rw (e, h, revoke) (delete-IsStore t now v)
    | inr h ↦ rw (e, h, revoke) v
  ]
]
