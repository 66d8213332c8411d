-- ===== src/Usb/LanClient/Untouched.antt =====
-- src/usb/lan-client.ts: what a scoped sync leaves as it is.
use mathlib.Core.Path.{subst}
use abracadabra.Common.{
  String, str_eq, eq_iff, Bool, true, false, ◌||◌, ◌≡◌, refl, sym, ap, ◌∙◌, ◌⊎◌, Option, none, some,
  List, [], ◌∷◌, map, All, Result, ok, err, inl, inr, Bool-cases, >>=-eq-ok, arith,
}
use abracadabra.Common.Maps
use abracadabra.Common.Maps.{Map, has, contains, get-set, contains-keys}
use abracadabra.Common.Texts.{trim}
use abracadabra.Core.Vault.{Vault, Project}
use abracadabra.Core.Backup.{Opened, full, scoped, BackupError, open_any_bundle}
use abracadabra.Core.Scope.{
  ScopeError, assert_scope_names_allowed, is_reserved, ScopedMergeReport, merge_scoped_project,
  merge_scoped_loop, merge_scoped_projects,
}
use abracadabra.Core.Scope.Names.{IsAllowed, assert_scope_names_allowed_iff}
use abracadabra.Core.Sync.{key_set}
use abracadabra.Core.Sync.Vars.{key_set-contains, append-contains}
use abracadabra.Usb.LanHost.{requested, outside}
use abracadabra.Usb.LanClient.{
  Suite, Bundle, Network, refused_payload, require_fingerprint, pull_bundle,
}
use abracadabra.Usb.LanClient.Payload.{
  Pulled, check_requested, allowed, extras, check_extras, check_payload, check_opened,
  pull_projects,
}

-- A project that is not incoming stays.
merge_scoped_project-other :
    (theirs : Bool) (name k : String) (p : Project) (ps : Map Project) (r : ScopedMergeReport)
    → str_eq name k ≡ false
    → Maps.get k (merge_scoped_project theirs name p (ps, r)).0 ≡ Maps.get k ps
unfolding merge_scoped_project
merge_scoped_project-other theirs name k p ps r h = go (Maps.get name ps) refl
  where
    go :
        (o : Option Project)
        → Maps.get name ps ≡ o
        → Maps.get k (merge_scoped_project theirs name p (ps, r)).0 ≡ Maps.get k ps
    go none e = rw (e, merge_scoped_project) (get-set name k p ps ∙ rw h refl)
    go (some mine) e = rw (e, merge_scoped_project) (get-set name k _ ps ∙ rw h refl)

merge_scoped_loop-other :
    (theirs : Bool) (k : String) (incoming ps : Map Project) (r : ScopedMergeReport)
    → contains k (Maps.keys incoming) ≡ false
    → Maps.get k (merge_scoped_loop theirs incoming (ps, r)).0 ≡ Maps.get k ps
unfolding merge_scoped_loop contains
merge_scoped_loop-other theirs k [] ps r h = refl
merge_scoped_loop-other theirs k ((name, p) ∷ incoming) ps r h = elim (Bool-cases (str_eq name k)) [
  | inl e ↦ absurd (cc (rw e at h))
  | inr e ↦
      let next = merge_scoped_project theirs name p (ps, r) in
      merge_scoped_loop-other theirs k incoming next.0 next.1 (rw e at h)
      ∙ merge_scoped_project-other theirs name k p ps r e
]

pub merge_scoped_projects-other :
    (local : Vault) (incoming : Map Project) (theirs : Bool) (k : String)
    → contains k (Maps.keys incoming) ≡ false
    → Maps.get k (merge_scoped_projects local incoming theirs).merged.projects
      ≡ Maps.get k local.projects
unfolding merge_scoped_projects
merge_scoped_projects-other local incoming theirs k h =
    merge_scoped_loop-other theirs k incoming local.projects _ h

-- Names without extras are among those that were asked for.
key_set-eq-nil : (xs : List String) → key_set [] xs ≡ [] → (k : String) → contains k xs ≡ false
unfolding contains
key_set-eq-nil xs h k = sym (key_set-contains k [] xs) ∙ rw h refl

outside-all :
    (names asked : List String) (k : String)
    → contains k (outside names asked) ≡ false
    → contains k asked ≡ false
    → contains k names ≡ false
unfolding contains
outside-all [] asked k h c = refl
outside-all (n ∷ names) asked k h c = elim (Bool-cases (contains n asked)) [
  | inl e ↦ elim (Bool-cases (str_eq n k)) [
    | inl f ↦ absurd (cc (c, e, (eq_iff n k).0 f))
    | inr f ↦ rw f (outside-all names asked k (rw e at h) c)
  ]
  | inr e ↦ elim (Bool-cases (str_eq n k)) [
    | inl f ↦ absurd (cc (rw (e, contains, f) at h))
    | inr f ↦ rw f (outside-all names asked k (rw (e, contains, f) at h) c)
  ]
]

All-contains :
    (P : String → Type 0) (xs : List String) (k : String)
    → All P (map trim xs)
    → contains k xs ≡ true
    → P (trim k)
unfolding contains
All-contains P [] k a h = absurd (cc)
All-contains P (x ∷ xs) k a h = elim (Bool-cases (str_eq x k)) [
  | inl e ↦ subst (λ y. P (trim y)) ((eq_iff x k).0 e) a.0
  | inr e ↦ All-contains P xs k a.1 (rw e at h)
]

-- A project that a scoped sync for these names must not touch.
abbrev pub IsOther : (asked : List String) → String → Type 0
IsOther asked k = (contains k asked ≡ false) ⊎ (is_reserved (trim k) ≡ true)

allowed-ok :
    (names : List String) {cleaned : List String}
    → allowed names ≡ ok cleaned
    → All IsAllowed (map trim names)
allowed-ok names {cleaned} h = go (assert_scope_names_allowed names) refl h
  where
    go :
        (r : Result ScopeError (List String))
        → assert_scope_names_allowed names ≡ r
        → (elim r [ err e ↦ err (refused_payload e) | ok c ↦ ok c ]) ≡ ok cleaned
        → All IsAllowed (map trim names)
    go (err e) p q = absurd (cc)
    go (ok c) p q = ((assert_scope_names_allowed_iff names c).0 p).1

check_extras-ok : (xs : List String) {u : Unit {0}} → check_extras xs ≡ ok u → xs ≡ []
check_extras-ok [] h = refl
check_extras-ok (x ∷ xs) h = absurd (cc)

or_false : (a b : Bool) → (a || b) ≡ false → b ≡ false
or_false a b h = ground arith

check_payload-IsOther :
    (asked scope : List String) (projects : Map Project) {pulled : Pulled} (k : String)
    → check_payload (some asked) scope projects ≡ ok pulled
    → IsOther asked k
    → contains k (Maps.keys pulled.projects) ≡ false
unfolding check_payload extras
check_payload-IsOther asked scope projects {pulled} k h other =
    let a = >>=-eq-ok (allowed scope) _ h in
    let b = >>=-eq-ok (allowed (Maps.keys projects)) _ a.2 in
    let c = >>=-eq-ok (check_extras (extras (some asked) scope projects)) _ b.2 in
    let names = Maps.keys projects in
    let none_outside =
      or_false (contains k (outside scope asked)) (contains k (outside names asked)) (
        sym (append-contains k (outside scope asked) (outside names asked))
        ∙ key_set-eq-nil _ (check_extras-ok _ c.1) k) in
    let found : Pulled = record { requested_names = some asked; projects = projects } in
    let same : found ≡ pulled = cc (c.2) in
    subst (λ (ps : Map Project). contains k (Maps.keys ps) ≡ false)
      (ap (λ (p : Pulled). p.projects) same)
      (elim other [
        | inl e ↦ outside-all names asked k none_outside e
        | inr e ↦ elim (Bool-cases (contains k names)) [
          | inl f ↦ absurd (cc ((All-contains IsAllowed names k (allowed-ok names b.1) f).1, e))
          | inr f ↦ f
        ]
      ])

check_opened-IsOther :
    {E : Type 0} (asked : List String) (r : Result BackupError (Opened E)) {pulled : Pulled}
    (k : String)
    → check_opened (some asked) r ≡ ok pulled
    → IsOther asked k
    → contains k (Maps.keys pulled.projects) ≡ false
check_opened-IsOther asked (err e) k h other = absurd (cc)
check_opened-IsOther asked (ok (full payload)) k h other = absurd (cc)
check_opened-IsOther asked (ok (scoped payload)) k h other =
    check_payload-IsOther asked _ _ k h other

check_requested-ok :
    (names : Option (List String)) (asked : List String) {r : Option (List String)}
    → check_requested (requested names) ≡ ok r
    → check_requested (requested names) ≡ ok (some asked)
    → r ≡ some asked
check_requested-ok names asked h g = cc (h, g)

module _ (suite : Suite) (net : Network (Bundle suite)) (pin : String) where
  pub pull_projects-IsOther :
      (fp : Option String) (names : Option (List String)) (asked : List String) {pulled : Pulled}
      (k : String)
      → check_requested (requested names) ≡ ok (some asked)
      → pull_projects suite net pin fp names ≡ ok pulled
      → IsOther asked k
      → contains k (Maps.keys pulled.projects) ≡ false
  unfolding pull_projects
  pull_projects-IsOther fp names asked {pulled} k g h other =
      let a = >>=-eq-ok (require_fingerprint fp) _ h in
      let b = >>=-eq-ok (check_requested (requested names)) _ a.2 in
      let c = >>=-eq-ok (pull_bundle net a.0 pin b.0) _ b.2 in
      let same = check_requested-ok names asked b.1 g in
      check_opened-IsOther asked (open_any_bundle suite.bundles suite.scrypt suite.nfkc c.0 pin) k
        (subst
          (λ (o : Option (List String)).
            check_opened o (open_any_bundle suite.bundles suite.scrypt suite.nfkc c.0 pin)
            ≡ ok pulled)
          same c.2)
        other
