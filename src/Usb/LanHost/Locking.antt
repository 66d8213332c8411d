-- ===== src/Usb/LanHost/Locking.antt =====
-- src/usb/lan-host.ts: how many wrong PINs a host takes.
use mathlib.Core.Path.{subst}
use abracadabra.Common.{
  ℕ, zero, suc, ◌+◌, ◌≤◌, leb, ltb, String, str_eq, Bool, true, false, ◌&&◌, ◌≡◌, refl, sym, ap,
  ◌∙◌, ◌⊎◌, ◌==◌, if◌then◌else◌, Option, none, some, is_some, List, [], ◌∷◌, arith, inl, inr,
  Bool-cases, Option-cases, Result, ok, err,
}
use abracadabra.Core.Vault.{Vault, Project, keep_device_local}
use abracadabra.Common.Maps.{Map}
use abracadabra.Core.Scope.{
  ScopeError, assert_scope_names_allowed, validate_scope, extract_scoped_projects,
}
use abracadabra.Usb.LanHost.{
  Payload, serve_scoped, pull_scoped, pull_full, scope_status, outside, removed, requested, gate,
  push_bundle, Bundles, ActiveHost, LanRequest, refused, Answer, reply, count_failure, right_pin,
  pull, push, route, handle, lan_pin_max_failures, stop_lan_host,
}

-- The answer is to a wrong PIN.
abbrev pub is_wrong_pin : {B : Type 0} → Answer B → Bool
is_wrong_pin (reply (refused n)) = n == 401
is_wrong_pin _ = false

-- What a host meets: a request, at a time and with the vault of then, and its end.
pub data Event (B : Type 0) : Type 0 where
  request : (now : ℕ) → Vault → LanRequest B → Event B
  stopped : Event B

-- The count and the lock are kept, and the answer is not to a wrong PIN.
Quiet : {B : Type 0} → ActiveHost → ActiveHost × Answer B → Type 0
Quiet h r = (r.0.fail_count ≡ h.fail_count) × (r.0.locked ≡ h.locked) × (is_wrong_pin r.1 ≡ false)

module _ {B : Type 0} (bundles : Bundles B) (nfkc : String → String) where
  serve_scoped-Quiet :
      (vault : Vault) (names : List String) (h : ActiveHost)
      → Quiet h (serve_scoped bundles nfkc vault names h)
  unfolding serve_scoped Quiet
  serve_scoped-Quiet vault names h = known (validate_scope vault names) refl
    where
      known :
          (r : Result ScopeError (List String))
          → validate_scope vault names ≡ r
          → Quiet h (serve_scoped bundles nfkc vault names h)
      known (err e) p = rw (p, serve_scoped) (refl, refl, refl)
      known (ok ns) p = found (extract_scoped_projects vault ns) refl
        where
          found :
              (q : Result ScopeError (Map Project))
              → extract_scoped_projects vault ns ≡ q
              → Quiet h (serve_scoped bundles nfkc vault names h)
          found (err e) q = rw (p, serve_scoped, q) (refl, refl, refl)
          found (ok ps) q = rw (p, serve_scoped, q) (refl, refl, refl)

  pull_scoped-Quiet :
      (vault : Vault) (scope : List String) (o : Option (List String)) (h : ActiveHost)
      → Quiet h (pull_scoped bundles nfkc vault scope o h)
  unfolding pull_scoped Quiet
  pull_scoped-Quiet vault scope none h = serve_scoped-Quiet vault scope h
  pull_scoped-Quiet vault scope (some names) h = allowed (assert_scope_names_allowed names) refl
    where
      allowed :
          (r : Result ScopeError (List String))
          → assert_scope_names_allowed names ≡ r
          → Quiet h (pull_scoped bundles nfkc vault scope (some names) h)
      allowed (err e) p = rw (p, pull_scoped) (refl, refl, refl)
      allowed (ok cleaned) p = inside (outside cleaned scope) refl
        where
          inside :
              (q : List String)
              → outside cleaned scope ≡ q
              → Quiet h (pull_scoped bundles nfkc vault scope (some names) h)
          inside [] q = rw (p, pull_scoped, q) (serve_scoped-Quiet vault cleaned h)
          inside (n ∷ ns) q = rw (p, pull_scoped, q) (refl, refl, refl)

  scope_status-401 : (e : ScopeError) → (scope_status bundles nfkc e == 401) ≡ false
  scope_status-401 ScopeError.no_name = refl
  scope_status-401 ScopeError.empty_name = refl
  scope_status-401 (ScopeError.refused n) = refl
  scope_status-401 (ScopeError.unknown_projects ns) = refl

  pull_full-Quiet :
      (vault : Vault) (o : Option (List String)) (h : ActiveHost)
      → Quiet h (pull_full bundles nfkc vault o h)
  unfolding pull_full Quiet
  pull_full-Quiet vault none h = (refl, refl, refl)
  pull_full-Quiet vault (some names) h = allowed (assert_scope_names_allowed names) refl
    where
      allowed :
          (r : Result ScopeError (List String))
          → assert_scope_names_allowed names ≡ r
          → Quiet h (pull_full bundles nfkc vault (some names) h)
      allowed (err e) p = rw (p, pull_full) (refl, refl, refl)
      allowed (ok cleaned) p = known (validate_scope vault cleaned) refl
        where
          known :
              (q : Result ScopeError (List String))
              → validate_scope vault cleaned ≡ q
              → Quiet h (pull_full bundles nfkc vault (some names) h)
          known (err e) q = rw (p, pull_full, q) (refl, refl, scope_status-401 e)
          known (ok ns) q = rw (p, pull_full, q) (serve_scoped-Quiet vault ns h)

  gate-Quiet :
      (current v : Vault) (d : Option String) (h : ActiveHost)
      → is_wrong_pin (gate bundles nfkc current v d h) ≡ false
  unfolding gate
  gate-Quiet current v d h = elim (Bool-cases h.allow_deletes) [
    | inl a ↦ simp a refl
    | inr a ↦ go (removed current.projects v.projects) refl a
  ]
    where
      go :
          (r : List String)
          → removed current.projects v.projects ≡ r
          → h.allow_deletes ≡ false
          → is_wrong_pin (gate bundles nfkc current v d h) ≡ false
      go [] e a = simp (a, e) refl
      go (n ∷ ns) e a = simp (a, e) refl

  push_bundle-Quiet :
      (current : Vault) (o : Option B) (h : ActiveHost)
      → is_wrong_pin (push_bundle bundles nfkc current o h) ≡ false
  unfolding push_bundle
  push_bundle-Quiet current none h = refl
  push_bundle-Quiet current (some b) h = opened (bundles.open_bundle b h.pin) refl
    where
      opened :
          (o : Option Payload)
          → bundles.open_bundle b h.pin ≡ o
          → is_wrong_pin (push_bundle bundles nfkc current (some b) h) ≡ false
      opened none p = rw (p, push_bundle) refl
      opened (some payload) p = elim (Option-cases payload.vault) [
        | inl q ↦ rw (p, push_bundle, q) refl
        | inr (x, q) ↦
            rw (p, push_bundle, q)
              (gate-Quiet current (keep_device_local x current) payload.device_id h)
      ]

  -- What a request does to the count.
  Counted : ActiveHost → ActiveHost × Answer B → Type 0
  Counted h r =
      Quiet h r ⊎ ((h.locked ≡ false) × (r.0 ≡ count_failure h) × (is_wrong_pin r.1 ≡ true))

  pull-Counted :
      (vault : Vault) (req : LanRequest B) (h : ActiveHost)
      → h.locked ≡ false
      → Counted h (pull bundles nfkc vault req h)
  unfolding pull Counted Quiet
  pull-Counted vault req h l = elim (Bool-cases (right_pin bundles nfkc h req)) [
    | inr e ↦ simp e (inr (l, refl, refl))
    | inl e ↦ elim (Option-cases req.body) [
      | inl b ↦ simp (e, b) (inl (refl, refl, refl))
      | inr (body, b) ↦ elim (Option-cases h.scope) [
        | inl s ↦ simp (e, b, s) (inl (pull_full-Quiet vault (requested body.projects) h))
        | inr (scope, s) ↦
            simp (e, b, s) (inl (pull_scoped-Quiet vault scope (requested body.projects) h))
      ]
    ]
  ]

  push-Counted :
      (vault : Vault) (req : LanRequest B) (h : ActiveHost)
      → h.locked ≡ false
      → Counted h (push bundles nfkc vault req h)
  unfolding push Counted Quiet
  push-Counted vault req h l = elim (Bool-cases (is_some h.scope)) [
    | inl s ↦ simp s (inl (refl, refl, refl))
    | inr s ↦ elim (Bool-cases (right_pin bundles nfkc h req)) [
      | inr e ↦ simp (s, e) (inr (l, refl, refl))
      | inl e ↦ elim (Option-cases req.body) [
        | inl b ↦ simp (s, e, b) (inl (refl, refl, refl))
        | inr (body, b) ↦ simp (s, e, b) (inl (refl, refl, push_bundle-Quiet vault body.bundle h))
      ]
    ]
  ]

  route-Counted :
      (vault : Vault) (req : LanRequest B) (h : ActiveHost)
      → h.locked ≡ false
      → Counted h (route bundles nfkc vault req h)
  unfolding route Counted Quiet
  route-Counted vault req h l =
      elim (Bool-cases (str_eq req.method "GET" && str_eq req.path "/lan/info")) [
        | inl a ↦ simp a (inl (refl, refl, refl))
        | inr a ↦ elim (Bool-cases (str_eq req.method "POST" && str_eq req.path "/lan/pull")) [
          | inl b ↦ simp (a, b) (pull-Counted vault req h l)
          | inr b ↦ elim (Bool-cases (str_eq req.method "POST" && str_eq req.path "/lan/push")) [
            | inl c ↦ simp (a, b, c) (push-Counted vault req h l)
            | inr c ↦ simp (a, b, c) (inl (refl, refl, refl))
          ]
        ]
      ]

  handle-Counted :
      (now : ℕ) (vault : Vault) (req : LanRequest B) (h : ActiveHost)
      → Counted h (handle bundles nfkc now vault req h)
  unfolding handle Counted Quiet stop_lan_host
  handle-Counted now vault req h = elim (Bool-cases h.active) [
    | inr a ↦ simp a (inl (refl, refl, refl))
    | inl a ↦ elim (Bool-cases (ltb h.expires_at now)) [
      | inl b ↦ simp (a, b) (inl (refl, refl, refl))
      | inr b ↦ elim (Bool-cases h.locked) [
        | inl c ↦ simp (a, b, c) (inl (refl, refl, refl))
        | inr c ↦
            let there : handle bundles nfkc now vault req h ≡ route bundles nfkc vault req h =
              simp (a, b, c) refl in
            subst (Counted h) (sym there) (route-Counted vault req h c)
      ]
    ]
  ]

  -- How many wrong PINs a host answers.
  abbrev pub wrong_pins : List (Event B) → ActiveHost → ℕ
  wrong_pins [] h = 0
  wrong_pins (request now vault req ∷ es) h =
      let r = handle bundles nfkc now vault req h in
      (if is_wrong_pin r.1 then 1 else 0) + wrong_pins es r.0
  wrong_pins (stopped ∷ es) h = wrong_pins es (stop_lan_host h)

  locked-wrong_pins : (es : List (Event B)) (h : ActiveHost) → h.locked ≡ true → wrong_pins es h ≡ 0
  unfolding Counted Quiet stop_lan_host
  locked-wrong_pins [] h l = refl
  locked-wrong_pins (stopped ∷ es) h l = locked-wrong_pins es (stop_lan_host h) l
  locked-wrong_pins (request now vault req ∷ es) h l = elim (handle-Counted now vault req h) [
    | inl q ↦
        rw q.2
          (omega (arith, locked-wrong_pins es (handle bundles nfkc now vault req h).0 (q.1 ∙ l)))
    | inr w ↦ absurd (cc (w.0, l))
  ]

  count_failure-locks :
      (h : ActiveHost) → (h.fail_count + 1 ≡ lan_pin_max_failures) → (count_failure h).locked ≡ true
  unfolding count_failure
  count_failure-locks h e =
      let full : leb lan_pin_max_failures (suc h.fail_count) ≡ true = ground arith in simp full refl

  count_failure-goes_on :
      (h : ActiveHost) (n : ℕ)
      → h.locked ≡ false
      → h.fail_count + suc (suc n) ≡ lan_pin_max_failures
      → ((count_failure h).locked ≡ false)
        × ((count_failure h).fail_count + suc n ≡ lan_pin_max_failures)
  unfolding count_failure
  count_failure-goes_on h n l e =
      let more : leb lan_pin_max_failures (suc h.fail_count) ≡ false = ground arith in
      simp more (l, omega (arith, e))

  unlocked-wrong_pins :
      (es : List (Event B)) (h : ActiveHost) (n : ℕ)
      → h.locked ≡ false
      → h.fail_count + suc n ≡ lan_pin_max_failures
      → wrong_pins es h ≤ suc n
  unfolding Counted Quiet stop_lan_host
  unlocked-wrong_pins [] h n l e = omega arith
  unlocked-wrong_pins (stopped ∷ es) h n l e = unlocked-wrong_pins es (stop_lan_host h) n l e
  unlocked-wrong_pins (request now vault req ∷ es) h n l e = elim (handle-Counted now vault req h) [
    | inl q ↦ rw q.2 (
        omega (
          arith,
          unlocked-wrong_pins es (handle bundles nfkc now vault req h).0 n (q.1 ∙ l)
              (ap (λ (k : ℕ). k + suc n) q.0 ∙ e),
        ))
    | inr w ↦ rw (w.2, w.1) (failed n e (λ k d. unlocked-wrong_pins es (count_failure h) k d.0 d.1))
  ]
    where
      failed :
          (k : ℕ)
          → h.fail_count + suc k ≡ lan_pin_max_failures
          → ((j : ℕ)
              → ((count_failure h).locked ≡ false)
                × ((count_failure h).fail_count + suc j ≡ lan_pin_max_failures)
              → wrong_pins es (count_failure h) ≤ suc j)
          → 1 + wrong_pins es (count_failure h) ≤ suc k
      failed zero d on =
          rw (locked-wrong_pins es (count_failure h) (count_failure-locks h d)) (omega arith)
      failed (suc k) d on = omega (arith, on k (count_failure-goes_on h k l d))

  -- A host that starts unlocked and without failures answers at most eight wrong PINs, whatever
  -- requests come, at whatever times, for whatever vault, and whenever the host is stopped.
  pub wrong_pins_bound :
      (es : List (Event B)) (h : ActiveHost)
      → h.fail_count ≡ 0
      → h.locked ≡ false
      → wrong_pins es h ≤ lan_pin_max_failures
  wrong_pins_bound es h z l = unlocked-wrong_pins es h 7 l (rw z refl)
