-- ===== src/Usb/LanHost/Access.antt =====
-- src/usb/lan-host.ts: who gets the vault of a host, and who may write it.
use abracadabra.Common.{
  ℕ, ltb, String, str_eq, Bool, true, false, ◌&&◌, ◌≡◌, refl, Option, none, some, is_some, List, [],
  ◌∷◌, Result, ok, err, arith, inl, inr, Bool-cases, Option-cases, ◌≤◌,
}
use abracadabra.Common.Maps.{Map}
use abracadabra.Core.Vault.{Vault, Project}
use abracadabra.Core.Scope.{
  ScopeError, assert_scope_names_allowed, validate_scope, extract_scoped_projects,
}
use abracadabra.Usb.LanHost.{
  Bundles, ActiveHost, LanRequest, served, would_delete, refused, info, applied, Answer, reply,
  ask_approval, right_pin, serve_scoped, pull_scoped, pull_full, pull, requested, push, route,
  handle, outside,
}

-- The answer tells something of the vault, or is about to write it.
abbrev pub touches : {B : Type 0} → Answer B → Bool
touches (reply (served b)) = true
touches (reply (would_delete ns)) = true
touches (ask_approval v d) = true
touches (reply (refused n)) = false
touches (reply info) = false
touches (reply applied) = false

abbrev pub asks : {B : Type 0} → Answer B → Bool
asks (reply r) = false
asks (ask_approval v d) = true

module _ {B : Type 0} (bundles : Bundles B) (nfkc : String → String) where
  pull-right_pin :
      (vault : Vault) (req : LanRequest B) (h : ActiveHost)
      → touches (pull bundles nfkc vault req h).1 ≡ true
      → right_pin bundles nfkc h req ≡ true
  unfolding pull
  pull-right_pin vault req h t = elim (Bool-cases (right_pin bundles nfkc h req)) [
    | inl e ↦ e
    | inr e ↦ absurd (cc (rw (e, pull) at t))
  ]

  push-right_pin :
      (vault : Vault) (req : LanRequest B) (h : ActiveHost)
      → touches (push bundles nfkc vault req h).1 ≡ true
      → right_pin bundles nfkc h req ≡ true
  unfolding push
  push-right_pin vault req h t = elim (Bool-cases (right_pin bundles nfkc h req)) [
    | inl e ↦ e
    | inr e ↦ elim (Bool-cases (is_some h.scope)) [
      | inl s ↦ absurd (cc (simp s at t))
      | inr s ↦ absurd (cc (simp (e, s) at t))
    ]
  ]

  route-right_pin :
      (vault : Vault) (req : LanRequest B) (h : ActiveHost)
      → touches (route bundles nfkc vault req h).1 ≡ true
      → right_pin bundles nfkc h req ≡ true
  unfolding route
  route-right_pin vault req h t =
      elim (Bool-cases (str_eq req.method "GET" && str_eq req.path "/lan/info")) [
        | inl a ↦ absurd (cc (simp a at t))
        | inr a ↦ elim (Bool-cases (str_eq req.method "POST" && str_eq req.path "/lan/pull")) [
          | inl b ↦ pull-right_pin vault req h (simp (a, b) at t)
          | inr b ↦ elim (Bool-cases (str_eq req.method "POST" && str_eq req.path "/lan/push")) [
            | inl c ↦ push-right_pin vault req h (simp (a, b, c) at t)
            | inr c ↦ absurd (cc (simp (a, b, c) at t))
          ]
        ]
      ]

  -- A host tells something of its vault, or goes on to write it, only for a request with the right
  -- PIN, while the host is active, before it expires, and before it is locked.
  pub handle-right_pin :
      (now : ℕ) (vault : Vault) (req : LanRequest B) (h : ActiveHost)
      → touches (handle bundles nfkc now vault req h).1 ≡ true
      → (h.active ≡ true)
        × (now ≤ h.expires_at)
        × (h.locked ≡ false)
        × (right_pin bundles nfkc h req ≡ true)
  unfolding handle
  handle-right_pin now vault req h t = elim (Bool-cases h.active) [
    | inr a ↦ absurd (cc (simp a at t))
    | inl a ↦ elim (Bool-cases (ltb h.expires_at now)) [
      | inl b ↦ absurd (cc (simp (a, b) at t))
      | inr b ↦ elim (Bool-cases h.locked) [
        | inl c ↦ absurd (cc (simp (a, b, c) at t))
        | inr c ↦ (a, ground arith, c, route-right_pin vault req h (simp (a, b, c) at t))
      ]
    ]
  ]

  serve_scoped-asks :
      (vault : Vault) (names : List String) (h : ActiveHost)
      → asks (serve_scoped bundles nfkc vault names h).1 ≡ false
  unfolding serve_scoped
  serve_scoped-asks vault names h = known (validate_scope vault names) refl
    where
      known :
          (r : Result ScopeError (List String))
          → validate_scope vault names ≡ r
          → asks (serve_scoped bundles nfkc vault names h).1 ≡ false
      known (err e) p = rw (p, serve_scoped) refl
      known (ok ns) p = found (extract_scoped_projects vault ns) refl
        where
          found :
              (q : Result ScopeError (Map Project))
              → extract_scoped_projects vault ns ≡ q
              → asks (serve_scoped bundles nfkc vault names h).1 ≡ false
          found (err e) q = rw (p, serve_scoped, q) refl
          found (ok ps) q = rw (p, serve_scoped, q) refl

  pull_scoped-asks :
      (vault : Vault) (scope : List String) (o : Option (List String)) (h : ActiveHost)
      → asks (pull_scoped bundles nfkc vault scope o h).1 ≡ false
  unfolding pull_scoped
  pull_scoped-asks vault scope none h = serve_scoped-asks vault scope h
  pull_scoped-asks vault scope (some names) h = allowed (assert_scope_names_allowed names) refl
    where
      allowed :
          (r : Result ScopeError (List String))
          → assert_scope_names_allowed names ≡ r
          → asks (pull_scoped bundles nfkc vault scope (some names) h).1 ≡ false
      allowed (err e) p = rw (p, pull_scoped) refl
      allowed (ok cleaned) p = inside (outside cleaned scope) refl
        where
          inside :
              (q : List String)
              → outside cleaned scope ≡ q
              → asks (pull_scoped bundles nfkc vault scope (some names) h).1 ≡ false
          inside [] q = rw (p, pull_scoped, q) (serve_scoped-asks vault cleaned h)
          inside (n ∷ ns) q = rw (p, pull_scoped, q) refl

  pull_full-asks :
      (vault : Vault) (o : Option (List String)) (h : ActiveHost)
      → asks (pull_full bundles nfkc vault o h).1 ≡ false
  unfolding pull_full
  pull_full-asks vault none h = refl
  pull_full-asks vault (some names) h = allowed (assert_scope_names_allowed names) refl
    where
      allowed :
          (r : Result ScopeError (List String))
          → assert_scope_names_allowed names ≡ r
          → asks (pull_full bundles nfkc vault (some names) h).1 ≡ false
      allowed (err e) p = rw (p, pull_full) refl
      allowed (ok cleaned) p = known (validate_scope vault cleaned) refl
        where
          known :
              (q : Result ScopeError (List String))
              → validate_scope vault cleaned ≡ q
              → asks (pull_full bundles nfkc vault (some names) h).1 ≡ false
          known (err e) q = rw (p, pull_full, q) refl
          known (ok ns) q = rw (p, pull_full, q) (serve_scoped-asks vault ns h)

  pub pull-asks :
      (vault : Vault) (req : LanRequest B) (h : ActiveHost)
      → asks (pull bundles nfkc vault req h).1 ≡ false
  unfolding pull
  pull-asks vault req h = elim (Bool-cases (right_pin bundles nfkc h req)) [
    | inr e ↦ rw (e, pull) refl
    | inl e ↦ elim (Option-cases req.body) [
      | inl b ↦ rw (e, pull, b) refl
      | inr (body, b) ↦ elim (Option-cases h.scope) [
        | inl s ↦ simp (e, b, s) (pull_full-asks vault (requested body.projects) h)
        | inr (scope, s) ↦ simp (e, b, s) (pull_scoped-asks vault scope (requested body.projects) h)
      ]
    ]
  ]
