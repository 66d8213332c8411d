-- ===== src/Usb/LanHost/Sharing.antt =====
-- src/usb/lan-host.ts: what the bundles of a host hold.
use mathlib.Core.Path.{subst}
use abracadabra.Common.{
  ℕ, ltb, String, str_eq, eq_iff, true, ◌&&◌, ◌≡◌, refl, sym, ap, ◌∙◌, Option, none, some, List, [],
  ◌∷◌, map, Result, ok, err, arith, inl, inr, Bool-cases, Option-cases,
}
use abracadabra.Common.Maps
use abracadabra.Common.Maps.{Map, contains}
use abracadabra.Common.Texts.{trim}
use abracadabra.Core.Vault.{Vault, Project}
use abracadabra.Core.Sync.Vars.{key_set-contains}
use abracadabra.Core.Scope.{
  ScopeError, unknown, unknown_projects, check_known, assert_scope_names_allowed, validate_scope,
}
use abracadabra.Core.Scope.Names.{assert_scope_names_allowed_iff, chosen, extract-validate}
use abracadabra.Usb.LanHost.{
  Bundles, ActiveHost, LanRequest, Answer, reply, ask_approval, served, would_delete, refused, info,
  applied, outside, right_pin, requested, serve_scoped, pull_scoped, pull, push, route, handle,
}

contains-map :
    (k : String) (x : String) (ys : List String)
    → trim x ≡ k
    → contains x ys ≡ true
    → contains k (map trim ys) ≡ true
unfolding contains
contains-map k x [] p h = absurd (cc)
contains-map k x (y ∷ ys) p h = elim (Bool-cases (str_eq y x)) [
  | inl e ↦ ground (arith, eq_iff (trim y) k, ap trim ((eq_iff y x).0 e))
  | inr e ↦ ground (arith, contains-map k x ys p (rw e at h))
]

-- Trimmed names of a part are trimmed names of the whole.
map-trim_sub :
    (xs ys : List String) (k : String)
    → ((x : String) → contains x xs ≡ true → contains x ys ≡ true)
    → contains k (map trim xs) ≡ true
    → contains k (map trim ys) ≡ true
unfolding contains
map-trim_sub [] ys k h c = absurd (cc)
map-trim_sub (x ∷ xs) ys k h c = elim (Bool-cases (str_eq (trim x) k)) [
  | inl e ↦ contains-map k x ys ((eq_iff (trim x) k).0 e) (h x (ground (arith, eq_iff x x)))
  | inr e ↦ map-trim_sub xs ys k (λ y q. h y (ground arith)) (rw e at c)
]

outside-nil :
    (names scope : List String)
    → outside names scope ≡ []
    → (x : String) → contains x names ≡ true
    → contains x scope ≡ true
unfolding contains
outside-nil [] scope h x c = absurd (cc)
outside-nil (n ∷ names) scope h x c = elim (Bool-cases (contains n scope)) [
  | inr e ↦ absurd (cc (rw e at h))
  | inl e ↦ elim (Bool-cases (str_eq n x)) [
    | inl f ↦ subst (λ y. contains y scope ≡ true) ((eq_iff n x).0 f) e
    | inr f ↦ outside-nil names scope (rw e at h) x (rw f at c)
  ]
]

check_known-same :
    (vault : Vault) (r : Result ScopeError (List String)) (ns : List String)
    → check_known vault r ≡ ok ns
    → r ≡ ok ns
check_known-same vault (err e) ns h = absurd (cc)
check_known-same vault (ok cleaned) ns h = go (unknown vault.projects cleaned) h
  where
    go :
        (us : List String)
        → (elim us [ [] ↦ ok cleaned | n ∷ more ↦ err (unknown_projects (n ∷ more)) ]) ≡ ok ns
        → ◌≡◌ {A = Result ScopeError (List String)} (ok cleaned) (ok ns)
    go [] q = q
    go (u ∷ us) q = absurd (cc)

-- The names that are accepted are trimmed names of the list.
assert-contains :
    (names ns : List String) (k : String)
    → assert_scope_names_allowed names ≡ ok ns
    → contains k ns ≡ true
    → contains k (map trim names) ≡ true
unfolding contains
assert-contains names ns k h c =
    let e = ((assert_scope_names_allowed_iff names ns).0 h).2 in
    sym (key_set-contains k [] (map trim names)) ∙ subst (λ xs. contains k xs ≡ true) e c

validate_scope-contains :
    (vault : Vault) (names ns : List String) (k : String)
    → validate_scope vault names ≡ ok ns
    → contains k ns ≡ true
    → contains k (map trim names) ≡ true
unfolding validate_scope
validate_scope-contains vault names ns k h c =
    assert-contains names ns k (check_known-same vault (assert_scope_names_allowed names) ns h) c

module _ {B : Type 0} (bundles : Bundles B) (nfkc : String → String) where
  -- A bundle of the projects of some trimmed names of the list, as they stand in the vault.
  pub record IsShare (vault : Vault) (scope : List String) (pin : String) (b : B) : Type 0 where
    pub names : List String
    pub projects : Map Project
    pub is : b ≡ bundles.seal_scoped projects names pin
    pub has : (k : String) → Maps.get k projects ≡ chosen vault.projects names k
    pub within : (k : String) → contains k names ≡ true → contains k (map trim scope) ≡ true

  abbrev pub Shares : Vault → List String → (pin : String) → Answer B → Type 0
  Shares vault scope pin (reply (served b)) = IsShare vault scope pin b
  Shares vault scope pin (reply (would_delete ns)) = Unit
  Shares vault scope pin (reply (refused n)) = Unit
  Shares vault scope pin (reply info) = Unit
  Shares vault scope pin (reply applied) = Unit
  Shares vault scope pin (ask_approval v d) = Unit

  serve_scoped-Shares :
      (vault : Vault) (names scope : List String) (h : ActiveHost)
      → ((k : String) → contains k names ≡ true → contains k scope ≡ true)
      → Shares vault scope h.pin (serve_scoped bundles nfkc vault names h).1
  unfolding serve_scoped
  serve_scoped-Shares vault names scope h sub = known (validate_scope vault names) refl
    where
      known :
          (r : Result ScopeError (List String))
          → validate_scope vault names ≡ r
          → Shares vault scope h.pin (serve_scoped bundles nfkc vault names h).1
      known (err e) p = rw (p, serve_scoped) tt
      known (ok ns) p =
          let found = extract-validate vault names ns p in
          rw (p, serve_scoped, found.1)
            (record {
              names = ns;
              projects = found.0;
              is = refl;
              has = found.2;
              within = λ k c.
                  map-trim_sub names scope k sub (validate_scope-contains vault names ns k p c);
            })

  pull_scoped-Shares :
      (vault : Vault) (scope : List String) (o : Option (List String)) (h : ActiveHost)
      → Shares vault scope h.pin (pull_scoped bundles nfkc vault scope o h).1
  unfolding pull_scoped
  pull_scoped-Shares vault scope none h = serve_scoped-Shares vault scope scope h (λ k c. c)
  pull_scoped-Shares vault scope (some names) h = allowed (assert_scope_names_allowed names) refl
    where
      allowed :
          (r : Result ScopeError (List String))
          → assert_scope_names_allowed names ≡ r
          → Shares vault scope h.pin (pull_scoped bundles nfkc vault scope (some names) h).1
      allowed (err e) p = rw (p, pull_scoped) tt
      allowed (ok cleaned) p = inside (outside cleaned scope) refl
        where
          inside :
              (q : List String)
              → outside cleaned scope ≡ q
              → Shares vault scope h.pin (pull_scoped bundles nfkc vault scope (some names) h).1
          inside [] q =
              rw (p, pull_scoped, q)
                (serve_scoped-Shares vault cleaned scope h (outside-nil cleaned scope q))
          inside (n ∷ ns) q = rw (p, pull_scoped, q) tt

  pull-Shares :
      (vault : Vault) (scope : List String) (req : LanRequest B) (h : ActiveHost)
      → h.scope ≡ some scope
      → Shares vault scope h.pin (pull bundles nfkc vault req h).1
  unfolding pull
  pull-Shares vault scope req h s = elim (Bool-cases (right_pin bundles nfkc h req)) [
    | inr e ↦ simp e tt
    | inl e ↦ elim (Option-cases req.body) [
      | inl b ↦ simp (e, b) tt
      | inr (body, b) ↦ simp (e, b, s) (pull_scoped-Shares vault scope (requested body.projects) h)
    ]
  ]

  push-Shares :
      (vault : Vault) (scope : List String) (req : LanRequest B) (h : ActiveHost)
      → h.scope ≡ some scope
      → Shares vault scope h.pin (push bundles nfkc vault req h).1
  unfolding push
  push-Shares vault scope req h s = simp s tt

  route-Shares :
      (vault : Vault) (scope : List String) (req : LanRequest B) (h : ActiveHost)
      → h.scope ≡ some scope
      → Shares vault scope h.pin (route bundles nfkc vault req h).1
  unfolding route
  route-Shares vault scope req h s =
      elim (Bool-cases (str_eq req.method "GET" && str_eq req.path "/lan/info")) [
        | inl a ↦ simp a tt
        | inr a ↦ elim (Bool-cases (str_eq req.method "POST" && str_eq req.path "/lan/pull")) [
          | inl b ↦ simp (a, b) (pull-Shares vault scope req h s)
          | inr b ↦ elim (Bool-cases (str_eq req.method "POST" && str_eq req.path "/lan/push")) [
            | inl c ↦ simp (a, b, c) (push-Shares vault scope req h s)
            | inr c ↦ simp (a, b, c) tt
          ]
        ]
      ]

  -- A host that shares a scope serves nothing but bundles of projects of that scope, under its PIN,
  -- whatever the request asks: the projects as they stand in the vault when the request comes, by
  -- trimmed names of the scope.
  pub handle-Shares :
      (now : ℕ) (vault : Vault) (scope : List String) (req : LanRequest B) (h : ActiveHost)
      → h.scope ≡ some scope
      → Shares vault scope h.pin (handle bundles nfkc now vault req h).1
  unfolding handle
  handle-Shares now vault scope req h s = elim (Bool-cases h.active) [
    | inr a ↦ simp a tt
    | inl a ↦ elim (Bool-cases (ltb h.expires_at now)) [
      | inl b ↦ simp (a, b) tt
      | inr b ↦ elim (Bool-cases h.locked) [
        | inl c ↦ simp (a, b, c) tt
        | inr c ↦ simp (a, b, c) (route-Shares vault scope req h s)
      ]
    ]
  ]
