-- ===== src/Usb/LanHost/Gate.antt =====
-- src/usb/lan-host.ts: the vault that a push goes on to write.
use abracadabra.Common.{
  ℕ, ltb, String, str_eq, eq_iff, true, ◌&&◌, ◌≡◌, ◌⊎◌, refl, sym, ap, Option, none, some, List, [],
  ◌∷◌, inl, inr, Bool-cases, Option-cases,
}
use abracadabra.Common.Maps
use abracadabra.Common.Maps.{Map, has, contains}
use abracadabra.Core.Vault.{Vault, Project, keep_device_local}
use abracadabra.Usb.LanHost.{
  Bundles, Payload, ActiveHost, LanRequest, Answer, ask_approval, removed, right_pin, gate,
  push_bundle, push, route, handle,
}
use abracadabra.Usb.LanHost.Access.{asks, pull-asks}

removed-none :
    (current vault : Map Project)
    → removed current vault ≡ []
    → (n : String) → has n current ≡ true
    → has n vault ≡ true
unfolding Maps.get
removed-none [] vault r n h = absurd (cc h)
removed-none ((j, p) ∷ current) vault r n h = elim (Bool-cases (has j vault)) [
  | inr e ↦ absurd (cc (rw e at r))
  | inl e ↦ elim (Bool-cases (str_eq j n)) [
    | inl q ↦ rw (← (eq_iff j n).0 q) e
    | inr q ↦ removed-none current vault (rw e at r) n (rw q at h)
  ]
]

List-cases : {A : Type 0} (xs : List A) → (xs ≡ []) ⊎ ((a : A) × (rest : List A) × (xs ≡ a ∷ rest))
List-cases [] = inl refl
List-cases (x ∷ xs) = inr (x, xs, refl)

asked :
    {B : Type 0} {v w : Vault} {c d : Option String}
    → Path (Answer B) (ask_approval v c) (ask_approval w d)
    → v ≡ w
asked h = cc h

module _ {B : Type 0} (bundles : Bundles B) (nfkc : String → String) where
  gate-lem :
      (current vault v : Vault) (c d : Option String) (h : ActiveHost)
      → gate bundles nfkc current vault c h ≡ ask_approval v d
      → (vault ≡ v)
        × ((h.allow_deletes ≡ true)
            ⊎ ((n : String) → has n current.projects ≡ true → has n v.projects ≡ true))
  unfolding gate
  gate-lem current vault v c d h w = elim (Bool-cases h.allow_deletes) [
    | inl a ↦ (asked (simp a at w), inl a)
    | inr a ↦ elim (List-cases (removed current.projects vault.projects)) [
      | inl r ↦
          let same = asked (rw r at (simp a at w)) in
          (same, inr (λ n x. rw (← same) (removed-none current.projects vault.projects r n x)))
      | inr (n, ns, r) ↦ absurd (cc (rw r at (simp a at w)))
    ]
  ]

  -- The vault that a push goes on to write has passed the gate.
  Passes : (current v : Vault) → ActiveHost → Type 0
  Passes current v h =
      (h.scope ≡ none)
      × ((h.allow_deletes ≡ true)
          ⊎ ((n : String) → has n current.projects ≡ true → has n v.projects ≡ true))
      × (v.sync_identity ≡ current.sync_identity)
      × (v.sync_peers ≡ current.sync_peers)

  push_bundle-lem :
      (current v : Vault) (o : Option B) (d : Option String) (h : ActiveHost)
      → push_bundle bundles nfkc current o h ≡ ask_approval v d
      → ((h.allow_deletes ≡ true)
          ⊎ ((n : String) → has n current.projects ≡ true → has n v.projects ≡ true))
        × (v.sync_identity ≡ current.sync_identity)
        × (v.sync_peers ≡ current.sync_peers)
  unfolding push_bundle keep_device_local
  push_bundle-lem current v none d h w = absurd (cc w)
  push_bundle-lem current v (some b) d h w = opened (bundles.open_bundle b h.pin) refl
    where
      Goal : Type 0
      Goal =
          ((h.allow_deletes ≡ true)
            ⊎ ((n : String) → has n current.projects ≡ true → has n v.projects ≡ true))
          × (v.sync_identity ≡ current.sync_identity)
          × (v.sync_peers ≡ current.sync_peers)

      opened : (o : Option Payload) → bundles.open_bundle b h.pin ≡ o → Goal
      opened none p = absurd (cc (rw (p, push_bundle) at w))
      opened (some payload) p = elim (Option-cases payload.vault) [
        | inl q ↦ absurd (cc (rw (p, push_bundle, q) at w))
        | inr (x, q) ↦
            let g =
              gate-lem current (keep_device_local x current) v payload.device_id d h
                (rw (p, push_bundle, q) at w) in
            (
              g.1,
              ap (λ (y : Vault). y.sync_identity) (sym g.0),
              ap (λ (y : Vault). y.sync_peers) (sym g.0),
            )
      ]

  push-Passes :
      (current : Vault) (req : LanRequest B) (h : ActiveHost) (v : Vault) (d : Option String)
      → (push bundles nfkc current req h).1 ≡ ask_approval v d
      → Passes current v h
  unfolding push Passes
  push-Passes current req h v d w = elim (Option-cases h.scope) [
    | inr (s, p) ↦ absurd (cc (simp p at w))
    | inl p ↦ elim (Bool-cases (right_pin bundles nfkc h req)) [
      | inr e ↦ absurd (cc (simp (p, e) at w))
      | inl e ↦ elim (Option-cases req.body) [
        | inl b ↦ absurd (cc (simp (p, e, b) at w))
        | inr (body, b) ↦
            let g = push_bundle-lem current v body.bundle d h (simp (p, e, b) at w) in
            (p, g.0, g.1, g.2)
      ]
    ]
  ]

  route-Passes :
      (current : Vault) (req : LanRequest B) (h : ActiveHost) (v : Vault) (d : Option String)
      → (route bundles nfkc current req h).1 ≡ ask_approval v d
      → Passes current v h
  unfolding route
  route-Passes current req h v d w =
      elim (Bool-cases (str_eq req.method "GET" && str_eq req.path "/lan/info")) [
        | inl a ↦ absurd (cc (simp a at w))
        | inr a ↦ elim (Bool-cases (str_eq req.method "POST" && str_eq req.path "/lan/pull")) [
          | inl b ↦ absurd (cc (pull-asks bundles nfkc current req h, ap asks (simp (a, b) at w)))
          | inr b ↦ elim (Bool-cases (str_eq req.method "POST" && str_eq req.path "/lan/push")) [
            | inl c ↦ push-Passes current req h v d (simp (a, b, c) at w)
            | inr c ↦ absurd (cc (simp (a, b, c) at w))
          ]
        ]
      ]

  -- A push goes on to the approval of the user only on a host without a scope, for a vault that has
  -- every project of the host, unless the host takes deletions, and the identity and the peers of
  -- the host.
  pub handle-Passes :
      (now : ℕ) (current : Vault) (req : LanRequest B) (h : ActiveHost) (v : Vault)
      (d : Option String)
      → (handle bundles nfkc now current req h).1 ≡ ask_approval v d
      → (h.scope ≡ none)
        × ((h.allow_deletes ≡ true)
            ⊎ ((n : String) → has n current.projects ≡ true → has n v.projects ≡ true))
        × (v.sync_identity ≡ current.sync_identity)
        × (v.sync_peers ≡ current.sync_peers)
  unfolding handle Passes
  handle-Passes now current req h v d w = elim (Bool-cases h.active) [
    | inr a ↦ absurd (cc (simp a at w))
    | inl a ↦ elim (Bool-cases (ltb h.expires_at now)) [
      | inl b ↦ absurd (cc (simp (a, b) at w))
      | inr b ↦ elim (Bool-cases h.locked) [
        | inl c ↦ absurd (cc (simp (a, b, c) at w))
        | inr c ↦ route-Passes current req h v d (simp (a, b, c) at w)
      ]
    ]
  ]
