-- ===== src/Agent/Grants/Check.antt =====
-- What `check` answers, and how `add`, `revoke` and time change it.
use abracadabra.Common.{
  ℕ, ◌+◌, ◌-◌, ◌*◌, ◌<◌, String, str_eq, eq_iff, eq_refl, true, false, ◌≡◌, ◌≢◌, ◌↔◌, refl, Option,
  none, some, [], ◌∷◌, arith, inl, inr, Bool-cases, ap, ok, All, if◌then◌else◌, ◌∙◌, ==_iff,
}
use abracadabra.Common.Maps
use abracadabra.Common.Maps.{Map, get-set, get-set_self, get-delete, All-get, IsMap}
use abracadabra.Common.Numbers.{Number, nat, neg, strict_eq, is_finite, infinity, minus_infinity}
use abracadabra.Common.Texts.{trim}
use abracadabra.Agent.Grants.{
  GrantCaller, Grant, GrantStore, GrantCheckResult, arm_prune_timer, prune_loop, caller_complete,
  add, revoke, check, check_loop, matches,
}
use abracadabra.Agent.Grants.Invariant.{
  IsGrant, IsStore, live, get-prune_loop, prune_loop-IsMap, grants-prune_expired, All-prune_loop,
  add_ok, grants-add, add-IsStore, revoke-IsStore,
}

-- The grant that an answer names: it is in the map under the answer's id, it matches the question,
-- and the answer gives the time that it has left.
pub record Names (project : String) (caller : GrantCaller) (now : ℕ) (m : Map Grant)
    (r : GrantCheckResult) : Type 0 where
  pub id : String
  pub g : Grant
  pub found : Maps.get id m ≡ some g
  pub project_lem : g.project ≡ project
  pub caller_lem : g.caller ≡ caller
  pub unexpired : now < g.expires_at
  pub grant_id : r.grant_id ≡ some id
  pub remaining : r.remaining_ms ≡ some (g.expires_at - now)

-- The map stores a grant for the project and the caller that has not expired.
pub record Fits (project : String) (caller : GrantCaller) (now : ℕ) (m : Map Grant) : Type 0 where
  pub id : String
  pub g : Grant
  pub found : Maps.get id m ≡ some g
  pub project_lem : g.project ≡ project
  pub caller_lem : g.caller ≡ caller
  pub unexpired : now < g.expires_at

strict_eq_sound : (a b : Number) → strict_eq a b ≡ true → a ≡ b
strict_eq_sound infinity infinity h = refl
strict_eq_sound minus_infinity minus_infinity h = refl
strict_eq_sound (neg a) (neg b) h = ap neg ((==_iff a b).0 h)
strict_eq_sound (nat a) (nat b) h = ap nat ((==_iff a b).0 h)
strict_eq_sound _ _ h = absurd (cc)

strict_eq_refl : (a : Number) → is_finite a ≡ true → strict_eq a a ≡ true
strict_eq_refl (neg a) h = (==_iff a a).1 refl
strict_eq_refl (nat a) h = (==_iff a a).1 refl
strict_eq_refl _ h = absurd (cc)

GrantCaller-path : (a b : GrantCaller) → a.exe ≡ b.exe → a.dev ≡ b.dev → a.ino ≡ b.ino → a ≡ b
GrantCaller-path a b p q r = λ i. record { exe = p i; dev = q i; ino = r i }

matches_sound :
    (project : String) (caller : GrantCaller) (now : ℕ) (g : Grant)
    → matches project caller now g ≡ true
    → (g.project ≡ project) × (g.caller ≡ caller) × (now < g.expires_at)
unfolding matches
matches_sound project caller now g h = (
  (eq_iff _ _).0 (ground arith),
  GrantCaller-path g.caller caller ((eq_iff _ _).0 (ground arith))
      (strict_eq_sound _ _ (ground arith)) (strict_eq_sound _ _ (ground arith)),
  ground arith,
)

matches_complete :
    (project : String) (caller : GrantCaller) (now : ℕ) (g : Grant)
    → caller_complete g.caller ≡ true
    → g.project ≡ project
    → g.caller ≡ caller
    → now < g.expires_at
    → matches project caller now g ≡ true
unfolding matches
matches_complete project caller now g c p q h =
    rw (← p, ← q)
      (ground (
        arith,
        eq_refl g.project,
        eq_refl g.caller.exe,
        strict_eq_refl g.caller.dev,
        strict_eq_refl g.caller.ino,
      ))

Names-cons :
    {project : String} {caller : GrantCaller} {now : ℕ} {m : Map Grant} {r : GrantCheckResult}
    (j : String) (k : Grant)
    → Maps.has j m ≡ false
    → Names project caller now m r
    → Names project caller now ((j, k) ∷ m) r
unfolding Maps.get
Names-cons j k h n = record {
  id = n.id;
  g = n.g;
  found = ground (arith, n.found, eq_iff j n.id);
  project_lem = n.project_lem;
  caller_lem = n.caller_lem;
  unexpired = n.unexpired;
  grant_id = n.grant_id;
  remaining = n.remaining;
}

module _ (project : String) (caller : GrantCaller) (now : ℕ) where
  check_loop_sound :
      (m : Map Grant)
      → IsMap m
      → All IsGrant m
      → (check_loop project caller now m).granted ≡ true
      → Names project caller now m (check_loop project caller now m)
  unfolding check_loop Maps.get
  check_loop_sound [] d a h = absurd (cc)
  check_loop_sound ((id, g) ∷ m) d a h = elim (Bool-cases (matches project caller now g)) [
    | inl e ↦ rw e (record {
      id = id;
      g = g;
      found = simp eq_refl;
      project_lem = (matches_sound project caller now g e).0;
      caller_lem = (matches_sound project caller now g e).1;
      unexpired = (matches_sound project caller now g e).2;
      grant_id = ap some a.0.keyed;
      remaining = refl;
    })
    | inr e ↦ rw e (Names-cons id g d.0 (check_loop_sound m d.1 a.1 (rw e at h)))
  ]

  check_loop_complete :
      (m : Map Grant) (id : String) (g : Grant)
      → Maps.get id m ≡ some g
      → matches project caller now g ≡ true
      → (check_loop project caller now m).granted ≡ true
  unfolding check_loop Maps.get
  check_loop_complete [] id g f h = cc
  check_loop_complete ((j, k) ∷ m) id g f h = ground (arith, check_loop_complete m id g)

-- `check` answers from the entries that are left when the expired ones are gone.
check-eq :
    (s : GrantStore) (project : String) (caller : GrantCaller) (now : ℕ)
    → (check s project caller now).1 ≡ check_loop project caller now (prune_loop now s.grants).0
unfolding check
check-eq s project caller now = rw grants-prune_expired

live-some_iff :
    (now : ℕ) (o : Option Grant) (g : Grant)
    → now < g.expires_at
    → (live now o ≡ some g) ↔ (o ≡ some g)
live-some_iff now (some k) g h = ground arith
live-some_iff now none g h = ground arith

-- A grant that is left by the pruning was there before it.
Names-prune_loop :
    {project : String} {caller : GrantCaller} {now : ℕ} {m : Map Grant} {r : GrantCheckResult}
    → IsMap m
    → Names project caller now (prune_loop now m).0 r
    → Names project caller now m r
Names-prune_loop {now} {m} d n = record {
  id = n.id;
  g = n.g;
  found = (live-some_iff now _ n.g n.unexpired).0 (rw (← get-prune_loop now n.id m d) n.found);
  project_lem = n.project_lem;
  caller_lem = n.caller_lem;
  unexpired = n.unexpired;
  grant_id = n.grant_id;
  remaining = n.remaining;
}

-- Any stored grant that fits the question and has not expired is enough for the check to grant.
pub check_complete :
    (s : GrantStore) (project : String) (caller : GrantCaller) (now : ℕ) (id : String) (g : Grant)
    → IsStore s
    → Maps.get id s.grants ≡ some g
    → g.project ≡ project
    → g.caller ≡ caller
    → now < g.expires_at
    → (check s project caller now).1.granted ≡ true
check_complete s project caller now id g v f p q h = rw check-eq (
    check_loop_complete project caller now (prune_loop now s.grants).0 id g
      (rw (get-prune_loop now id s.grants v.is_map) ((live-some_iff now _ g h).1 f))
      (matches_complete project caller now g (All-get IsGrant id s.grants v.each f).complete p q h))

check-Names :
    (s : GrantStore) (project : String) (caller : GrantCaller) (now : ℕ)
    → IsStore s
    → (check s project caller now).1.granted ≡ true
    → Names project caller now s.grants (check s project caller now).1
check-Names s project caller now v h = rw check-eq (
    Names-prune_loop v.is_map (
      check_loop_sound project caller now (prune_loop now s.grants).0
        (prune_loop-IsMap now s.grants v.is_map) (All-prune_loop IsGrant now s.grants v.each)
        (rw check-eq at h)))

-- In a well-formed store a check grants exactly when the map stores some grant for the project and
-- the caller that has not expired; and when it grants, its answer names the id of such a grant and
-- the time that this grant has left.
pub check_iff :
    (s : GrantStore) (project : String) (caller : GrantCaller) (now : ℕ)
    → IsStore s
    → (((check s project caller now).1.granted ≡ true) ↔ Fits project caller now s.grants)
      × ((check s project caller now).1.granted ≡ true
          → Names project caller now s.grants (check s project caller now).1)
check_iff s project caller now v = (
  (
    (λ h.
        let n = check-Names s project caller now v h in
        record {
          id = n.id;
          g = n.g;
          found = n.found;
          project_lem = n.project_lem;
          caller_lem = n.caller_lem;
          unexpired = n.unexpired;
        }),
    (λ n.
        check_complete s project caller now n.id n.g v n.found n.project_lem n.caller_lem
          n.unexpired),
  ),
  check-Names s project caller now v,
)

check_loop-granted :
    (project : String) (caller : GrantCaller) (now : ℕ) (id : String) (m : Map Grant)
    → (check_loop project caller now m).grant_id ≡ some id
    → (check_loop project caller now m).granted ≡ true
unfolding check_loop
check_loop-granted project caller now id [] h = cc
check_loop-granted project caller now id ((j, g) ∷ m) h =
    ground (arith, check_loop-granted project caller now id m)

granted_of_id :
    (s : GrantStore) (project : String) (caller : GrantCaller) (now : ℕ) (id : String)
    → (check s project caller now).1.grant_id ≡ some id
    → (check s project caller now).1.granted ≡ true
granted_of_id s project caller now id h =
    rw check-eq (check_loop-granted project caller now id _ (rw check-eq at h))

-- After `add` accepted a TTL of n seconds, a check for the trimmed project and the caller grants
-- at every time before the n seconds are over.
pub check-add :
    (s : GrantStore) (project : String) (caller : GrantCaller) (n now later : ℕ) (id : String)
    {g : Grant}
    → IsStore s
    → (add s project caller (nat n) now id).1 ≡ ok g
    → later < now + n * 1000
    → (check (add s project caller (nat n) now id).0 (trim project) caller later).1.granted ≡ true
unfolding arm_prune_timer
check-add s project caller n now later id {g} v h lt =
    let a = add_ok s project caller (nat n) now id h in
    check_complete _ (trim project) caller later id g
      (add-IsStore s project caller (nat n) now id v)
      (rw (grants-add s project caller (nat n) now id h) (get-set_self id g s.grants)) a.project_lem
      a.caller_lem (ground (arith, a.expires, a.ttl_lem))

-- Revoking a non-empty id takes that grant and no other out of the store, and answers how many
-- grants it took: one if the id was there, and none if not.
pub revoke_lem :
    (s : GrantStore) (id : String) (now : ℕ)
    → str_eq id "" ≡ false
    → ((revoke s false (some id) (some id) now).1 ≡ ok (if Maps.has id s.grants then 1 else 0))
      × ((j : String)
          → Maps.get j (revoke s false (some id) (some id) now).0.grants
            ≡ (if str_eq id j then none else Maps.get j s.grants))
unfolding revoke arm_prune_timer
revoke_lem s id now h = (ground arith, λ j. ground (arith, get-delete id j s.grants, eq_iff id j))

-- After an id was revoked, no check names it.
pub check-revoke :
    (s : GrantStore) (project : String) (caller : GrantCaller) (id : String) (now later : ℕ)
    → IsStore s
    → str_eq id "" ≡ false
    → (check (revoke s false (some id) (some id) now).0 project caller later).1.grant_id ≢ some id
check-revoke s project caller id now later v h e =
    let s' = (revoke s false (some id) (some id) now).0 in
    let n =
      check-Names s' project caller later (revoke-IsStore false (some id) (some id) now v)
        (granted_of_id s' project caller later id e) in
    let same : n.id ≡ id = ground (arith, n.grant_id) in
    let gone : Maps.get n.id s'.grants ≡ none =
      rw same ((revoke_lem s id now h).1 id ∙ rw eq_refl) in
    cc (n.found)
