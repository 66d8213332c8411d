-- ===== src/Pairing/Peers/Table.antt =====
-- The table of peers keeps its order, and the keys of a peer never change.
use abracadabra.Common.{
  ℕ, String, str_eq, eq_iff, if◌then◌else◌, Bool, false, ◌≡◌, ◌≢◌, ◌⊎◌, refl, sym, ap, ◌∙◌, Option,
  none, some, ok, arith, inl, inr, Bool-cases, Option-cases,
}
use abracadabra.Common.Maps
use abracadabra.Common.Maps.{Map, IsMap, set-IsMap, delete-IsMap, get-delete}
use abracadabra.Core.Vault.{Vault, SyncPeer, SyncIdentity}
use abracadabra.Pairing.Peers.{
  PeerCandidate, PeerPlan, peers_of, is_own, check_existing, plan_peer_upsert, find_peer,
  remove_peer,
}
use abracadabra.Pairing.Peers.Find.{find_entry-some}
use abracadabra.Pairing.Peers.Rules.{
  Accepted, plan_peer_upsert-Accepted, IsTable, kept, entry, other_key, plan_name, plan_keys,
  without-IsMap, ok_inj,
}

foreign_keys :
    (own : SyncIdentity) (cand : PeerCandidate)
    → is_own (some own) cand ≡ false
    → (cand.id ≢ own.id) × (cand.ed25519 ≢ own.ed25519_public) × (cand.x25519 ≢ own.x25519_public)
unfolding is_own
foreign_keys own cand h = ground (
  arith,
  eq_iff cand.id own.id,
  eq_iff cand.ed25519 own.ed25519_public,
  eq_iff cand.x25519 own.x25519_public,
)

known_keys :
    (p : SyncPeer) (cand : PeerCandidate)
    → check_existing (some p) cand ≡ ok tt
    → (p.ed25519 ≡ cand.ed25519) × (p.x25519 ≡ cand.x25519) × (p.role ≡ cand.role)
unfolding check_existing
known_keys p cand h = ground (arith, eq_iff p.ed25519 cand.ed25519, eq_iff p.x25519 cand.x25519)

module _ {v : Vault} {cand : PeerCandidate} {ow ex : Bool} {now : ℕ} {plan : PeerPlan}
    (t : IsTable v) (a : Accepted v cand ow ex now plan) where
  plan-IsMap : IsMap (peers_of plan.vault)
  plan-IsMap =
      rw a.vault_lem (set-IsMap cand.id _ (kept t a) (without-IsMap _ (peers_of v) t.is_map))

  plan-names :
      (i j : String) (p q : SyncPeer)
      → Maps.get i (peers_of plan.vault) ≡ some p
      → Maps.get j (peers_of plan.vault) ≡ some q
      → p.name ≡ q.name
      → i ≡ j
  plan-names i j p q gi gj e = elim (entry t a i p gi) [
    | inl x ↦ elim (entry t a j q gj) [
      | inl y ↦ cc (x.0, y.0)
      | inr y ↦ absurd (y.2 (sym e ∙ ap (λ (z : SyncPeer). z.name) x.1 ∙ plan_name t a))
    ]
    | inr x ↦ elim (entry t a j q gj) [
      | inl y ↦ absurd (x.2 (e ∙ ap (λ (z : SyncPeer). z.name) y.1 ∙ plan_name t a))
      | inr y ↦ t.names i j p q x.1 y.1 e
    ]
  ]

  plan-keys :
      (i j : String) (p q : SyncPeer)
      → Maps.get i (peers_of plan.vault) ≡ some p
      → Maps.get j (peers_of plan.vault) ≡ some q
      → p.ed25519 ≡ q.ed25519
      → i ≡ j
  plan-keys i j p q gi gj e = elim (entry t a i p gi) [
    | inl x ↦ elim (entry t a j q gj) [
      | inl y ↦ cc (x.0, y.0)
      | inr y ↦ absurd (
          other_key t a j q y.0 y.1
            (sym e ∙ ap (λ (z : SyncPeer). z.ed25519) x.1 ∙ (plan_keys t a).0))
    ]
    | inr x ↦ elim (entry t a j q gj) [
      | inl y ↦
          absurd (
            other_key t a i p x.0 x.1
              (e ∙ ap (λ (z : SyncPeer). z.ed25519) y.1 ∙ (plan_keys t a).0))
      | inr y ↦ t.keys i j p q x.1 y.1 e
    ]
  ]

  plan-others :
      (own : SyncIdentity) (i : String) (p : SyncPeer)
      → plan.vault.sync_identity ≡ some own
      → Maps.get i (peers_of plan.vault) ≡ some p
      → (i ≢ own.id) × (p.ed25519 ≢ own.ed25519_public) × (p.x25519 ≢ own.x25519_public)
  plan-others own i p o g =
      let o' : v.sync_identity ≡ some own =
        sym (ap (λ (x : Vault). x.sync_identity) a.vault_lem) ∙ o in
      elim (entry t a i p g) [
        | inl x ↦
            let f = foreign_keys own cand (rw o' at a.foreign) in
            let k = plan_keys t a in
            (
              (λ e. f.0 (x.0 ∙ e)),
              (λ e. f.1 (sym k.0 ∙ sym (ap (λ (z : SyncPeer). z.ed25519) x.1) ∙ e)),
              (λ e. f.2 (sym k.1 ∙ sym (ap (λ (z : SyncPeer). z.x25519) x.1) ∙ e)),
            )
        | inr x ↦ t.others own i p o' x.1
      ]

  plan-IsTable : IsTable plan.vault
  plan-IsTable = record {
    is_map = plan-IsMap;
    names = plan-names;
    keys = plan-keys;
    others = plan-others;
  }

-- A plan that planPeerUpsert accepts on a table in order keeps it in order: a name and a signing
-- key belong to one peer each, and no peer has the id or a key of this vault.
pub plan_peer_upsert-IsTable :
    (fingerprint : String → String → Option String) (v : Vault) (cand : PeerCandidate)
    (ow ex : Bool) (now : ℕ) (plan : PeerPlan)
    → IsTable v
    → plan_peer_upsert fingerprint v cand ow ex now ≡ ok plan
    → IsTable plan.vault
plan_peer_upsert-IsTable fingerprint v cand ow ex now plan t h =
    plan-IsTable t (plan_peer_upsert-Accepted fingerprint v cand ow ex now h)

-- Pairing again never changes keys or roles, in a table in order: a peer that is in the table
-- before and after a plan that planPeerUpsert accepts has the same keys and the same role.
pub keys_never_change :
    (fingerprint : String → String → Option String) (v : Vault) (cand : PeerCandidate)
    (ow ex : Bool) (now : ℕ) (plan : PeerPlan) (k : String) (p q : SyncPeer)
    → IsTable v
    → plan_peer_upsert fingerprint v cand ow ex now ≡ ok plan
    → Maps.get k (peers_of v) ≡ some p
    → Maps.get k (peers_of plan.vault) ≡ some q
    → (p.ed25519 ≡ q.ed25519) × (p.x25519 ≡ q.x25519) × (p.role ≡ q.role)
keys_never_change fingerprint v cand ow ex now plan k p q t h before after =
    let a = plan_peer_upsert-Accepted fingerprint v cand ow ex now h in
    elim (entry t a k q after) [
      | inl x ↦
          let known : Maps.get cand.id (peers_of v) ≡ some p = rw x.0 before in
          let old = known_keys p cand (rw known at a.existing_ok) in
          let new = plan_keys t a in
          (cc (old.0, new.0, x.1), cc (old.1, new.1, x.1), cc (old.2, new.2, x.1))
      | inr x ↦ let same : p ≡ q = cc (before, x.1) in rw same (refl, refl, refl)
    ]

get-delete_old :
    (i k : String) (m : Map SyncPeer) {p : SyncPeer}
    → Maps.get k (Maps.delete i m) ≡ some p
    → Maps.get k m ≡ some p
get-delete_old i k m h = elim (Bool-cases (str_eq i k)) [
  | inl e ↦ absurd (cc (rw (get-delete i k m, e) at h))
  | inr e ↦ rw (get-delete i k m, e) at h
]

delete-IsTable :
    (v : Vault) (i : String)
    → IsTable v
    → IsTable (record v { sync_peers = some (Maps.delete i (peers_of v)) })
delete-IsTable v i t = record {
  is_map = delete-IsMap i (peers_of v) t.is_map;
  names = λ a b p q g h.
      t.names a b p q (get-delete_old i a (peers_of v) g) (get-delete_old i b (peers_of v) h);
  keys = λ a b p q g h.
      t.keys a b p q (get-delete_old i a (peers_of v) g) (get-delete_old i b (peers_of v) h);
  others = λ own a p o g. t.others own a p o (get-delete_old i a (peers_of v) g);
}

-- What findPeer finds stands in the table, under the id or the name that was asked for.
find_peer_lem :
    (v : Vault) (k : String) {id : String} {p : SyncPeer}
    → IsTable v
    → find_peer v k ≡ some (id, p)
    → (Maps.get id (peers_of v) ≡ some p) × ((id ≡ k) ⊎ (p.name ≡ k))
unfolding find_peer
find_peer_lem v k {id} {p} t h = elim (Option-cases (Maps.get k (peers_of v))) [
  | inl e ↦
      let f =
        find_entry-some (λ j q. str_eq q.name k) (peers_of v) t.is_map (rw (e, find_peer) at h) in
      (f.1, inr ((eq_iff p.name k).0 f.0))
  | inr (q, e) ↦
      let found = rw (e, find_peer) at h in
      let same_id : k ≡ id = cc found in
      let same : q ≡ p = cc found in (rw (sym same_id, sym same) e, inl (sym same_id))
]

-- Where removePeer succeeds on a table in order, it takes the peer that has the id or the name
-- that was asked for, and no other: every other peer stays, in a table that is still in order.
pub remove_peer_lem :
    (v : Vault) (k : String) (w : Vault) (id : String) (p : SyncPeer)
    → IsTable v
    → remove_peer v k ≡ ok (w, (id, p))
    → ((j : String)
        → Maps.get j (peers_of w) ≡ (if str_eq id j then none else Maps.get j (peers_of v)))
      × (Maps.get id (peers_of v) ≡ some p)
      × ((id ≡ k) ⊎ (p.name ≡ k))
      × IsTable w
unfolding remove_peer
remove_peer_lem v k w id p t h = elim (Option-cases (find_peer v k)) [
  | inl e ↦ absurd (cc (rw (e, remove_peer) at h))
  | inr ((i, q), e) ↦
      let done = ok_inj (rw (e, remove_peer) at h) in
      let found = find_peer_lem v k t e in
      let same_id : i ≡ id = cc done in
      let same : q ≡ p = cc done in
      let vault : record v { sync_peers = some (Maps.delete i (peers_of v)) } ≡ w = cc done in
      let others : (j : String)
          → Maps.get j (peers_of w) ≡ (if str_eq id j then none else Maps.get j (peers_of v)) =
        λ j. rw (sym vault, sym same_id) (get-delete i j (peers_of v)) in
      (
        others,
        rw (sym same_id, sym same) found.0,
        rw (sym same_id, sym same) found.1,
        rw (sym vault) (delete-IsTable v i t),
      )
]
