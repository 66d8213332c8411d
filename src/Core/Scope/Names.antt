-- ===== src/Core/Scope/Names.antt =====
-- Which names a scoped sync takes, and the projects that it sends for them.
use abracadabra.Common.{
  String, str_eq, eq_iff, Bool, true, false, ◌≡◌, ◌≢◌, ◌↔◌, refl, sym, ap, ◌∙◌, if◌then◌else◌,
  Option, none, some, List, [], ◌∷◌, ◌++◌, map, All, Result, ok, err, inl, inr, Bool-cases,
  Option-cases,
}
use abracadabra.Common.Maps
use abracadabra.Common.Maps.{Map, has, contains, get-set}
use abracadabra.Common.Texts.{trim}
use abracadabra.Core.Vault.{Project, Vault}
use abracadabra.Core.Sync.{key_set}
use abracadabra.Core.Scope.{
  ScopeError, unknown_projects, is_reserved, clean_names, require_one, check_known,
  assert_scope_names_allowed, unknown, validate_scope, extract_loop, extract_scoped_projects,
}

abbrev pub IsAllowed : String → Type 0
IsAllowed name = (str_eq name "" ≡ false) × (is_reserved name ≡ false)

clean_names-ok :
    (names cleaned : List String)
    → All IsAllowed (map trim names)
    → clean_names names cleaned ≡ ok (key_set cleaned (map trim names))
unfolding clean_names key_set
clean_names-ok [] cleaned a = refl
clean_names-ok (raw ∷ names) cleaned a = rw (a.0.0, a.0.1) (clean_names-ok names _ a.1)

clean_names-IsAllowed :
    (names cleaned ns : List String)
    → clean_names names cleaned ≡ ok ns
    → All IsAllowed (map trim names)
unfolding clean_names
clean_names-IsAllowed [] cleaned ns h = tt
clean_names-IsAllowed (raw ∷ names) cleaned ns h = elim (Bool-cases (str_eq (trim raw) "")) [
  | inl e ↦ absurd (cc (rw e at h))
  | inr e ↦ elim (Bool-cases (is_reserved (trim raw))) [
    | inl f ↦ absurd (cc (rw (e, f) at h))
    | inr f ↦ ((e, f), clean_names-IsAllowed names _ ns (rw (e, f) at h))
  ]
]

abbrev is_cons : List String → Bool
is_cons [] = false
is_cons (k ∷ ks) = true

key_set-is_cons : (seen ks : List String) → is_cons seen ≡ true → is_cons (key_set seen ks) ≡ true
unfolding key_set
key_set-is_cons seen [] h = h
key_set-is_cons [] (j ∷ ks) h = absurd (cc)
key_set-is_cons (k ∷ seen) (j ∷ ks) h = elim (Bool-cases (contains j (k ∷ seen))) [
  | inl e ↦ rw e (key_set-is_cons (k ∷ seen) ks refl)
  | inr e ↦ rw e (key_set-is_cons (k ∷ seen ++ j ∷ []) ks refl)
]

require_one-ok :
    (r : Result ScopeError (List String)) (ns : List String) → require_one r ≡ ok ns → r ≡ ok ns
require_one-ok (err e) ns h = h
require_one-ok (ok []) ns h = absurd (cc)
require_one-ok (ok (k ∷ ks)) ns h = h

require_one-is_cons : (ks : List String) → is_cons ks ≡ true → require_one (ok ks) ≡ ok ks
require_one-is_cons [] h = absurd (cc)
require_one-is_cons (k ∷ ks) h = refl

key_set-first : (k : String) (ks : List String) → is_cons (key_set [] (k ∷ ks)) ≡ true
unfolding key_set contains
key_set-first k ks = key_set-is_cons (k ∷ []) ks refl

-- `assertScopeNamesAllowed` accepts a list of names exactly when there is one, and none of them is
-- blank or reserved once trimmed; and then it gives the trimmed names, each once, in order.
pub assert_scope_names_allowed_iff :
    (names ns : List String)
    → (assert_scope_names_allowed names ≡ ok ns)
      ↔ ((names ≢ []) × All IsAllowed (map trim names) × (ns ≡ key_set [] (map trim names)))
unfolding assert_scope_names_allowed
assert_scope_names_allowed_iff [] ns = ((λ h. absurd (cc)), (λ h. absurd (h.0 refl)))
assert_scope_names_allowed_iff (n ∷ names) ns = (
  (λ h.
      let c = require_one-ok (clean_names (n ∷ names) []) ns h in
      let a = clean_names-IsAllowed (n ∷ names) [] ns c in
      let e = clean_names-ok (n ∷ names) [] a in ((λ q. absurd (cc)), a, cc (c, e))),
  (λ h.
      rw
        (
          clean_names-ok (n ∷ names) [] h.1,
          require_one-is_cons _ (key_set-first (trim n) (map trim names)),
        )
        (ap ok (sym h.2))),
)

unknown-known :
    (projects : Map Project) (names : List String)
    → unknown projects names ≡ []
    → All (λ n. has n projects ≡ true) names
unfolding unknown
unknown-known projects [] h = tt
unknown-known projects (n ∷ names) h = elim (Bool-cases (has n projects)) [
  | inl e ↦ (e, unknown-known projects names (rw e at h))
  | inr e ↦ absurd (cc (rw e at h))
]

-- The projects of the names, no more.
abbrev pub chosen : Map Project → List String → String → Option Project
chosen projects names k = if contains k names then Maps.get k projects else none

if_same : {A : Type 0} (b : Bool) (x : A) → (if b then x else x) ≡ x
if_same true x = refl
if_same false x = refl

extract_loop-ok :
    (projects : Map Project) (names : List String) (out : Map Project)
    → All (λ n. has n projects ≡ true) names
    → (r : Map Project) × (extract_loop projects names out ≡ ok r)
      × ((k : String)
          → Maps.get k r ≡ (if contains k names then Maps.get k projects else Maps.get k out))
unfolding extract_loop contains
extract_loop-ok projects [] out a = (out, refl, λ k. refl)
extract_loop-ok projects (n ∷ names) out a = elim (Option-cases (Maps.get n projects)) [
  | inl e ↦ absurd (cc (a.0, e))
  | inr (p, e) ↦
      let rest = extract_loop-ok projects names (Maps.set n p out) a.1 in
      (
        rest.0,
        rw (e, extract_loop) rest.1,
        λ k. rest.2 k ∙ elim (Bool-cases (str_eq n k)) [
          | inl f ↦
              rw (get-set n k p out, f, sym ((eq_iff n k).0 f), e)
                (if_same (contains n names) (some p))
          | inr f ↦ rw (get-set n k p out, f) refl
        ],
      )
]

check_known-ok :
    (vault : Vault) (r : Result ScopeError (List String)) (ns : List String)
    → check_known vault r ≡ ok ns
    → All (λ n. has n vault.projects ≡ true) ns
check_known-ok vault (err e) ns h = absurd (cc)
check_known-ok vault (ok cleaned) ns h = go (unknown vault.projects cleaned) refl h
  where
    go :
        (us : List String)
        → unknown vault.projects cleaned ≡ us
        → (elim us [ [] ↦ ok cleaned | n ∷ more ↦ err (unknown_projects (n ∷ more)) ]) ≡ ok ns
        → All (λ n. has n vault.projects ≡ true) ns
    go [] p q =
        let same : cleaned ≡ ns = cc q in rw same at (unknown-known vault.projects cleaned p)
    go (u ∷ us) p q = absurd (cc)

-- The names that `validateScope` accepts, `extractScopedProjects` finds: it throws nothing, and
-- gives the vault's project for each of these names, and none for any other.
pub extract-validate :
    (vault : Vault) (names ns : List String)
    → validate_scope vault names ≡ ok ns
    → (r : Map Project) × (extract_scoped_projects vault ns ≡ ok r)
      × ((k : String) → Maps.get k r ≡ chosen vault.projects ns k)
unfolding validate_scope extract_scoped_projects Maps.get
extract-validate vault names ns h =
    extract_loop-ok vault.projects ns []
      (check_known-ok vault (assert_scope_names_allowed names) ns h)
