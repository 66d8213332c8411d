-- ===== src/Pairing/Peers/Rules.antt =====
-- What planPeerUpsert lets into the table: names and keys stay unique, no peer is this vault, and a
-- peer that is known keeps its keys.
use abracadabra.Common.{
  ℕ, String, str_eq, eq_iff, eq_refl, Bool, true, false, ◌||◌, not, ◌≡◌, ◌≢◌, ◌⊎◌, refl, sym, ap,
  ◌∙◌, if◌then◌else◌, Option, none, some, is_some, Result, ok, >>=-eq-ok, require-eq-ok, require,
  or_fail, arith, inl, inr, Bool-cases,
}
use abracadabra.Common.Maps
use abracadabra.Common.Maps.{Map, has, IsMap, get-set, get-delete, set-IsMap, delete-IsMap}
use abracadabra.Core.Vault.{Vault, SyncPeer, SyncIdentity}
use abracadabra.Pairing.Peers.{
  PeerCandidate, PeerPlan, find_entry, peers_of, is_own, check_existing, same_keys, same_name,
  chosen_name, validate_peer_name, new_peer, without, plan_peer_upsert, peer_name_re,
}
use abracadabra.Pairing.Peers.Find.{find_entry-none, find_entry-some}

-- What a plan has passed, and what it is.
pub record Accepted (v : Vault) (cand : PeerCandidate) (overwrite explicit_name : Bool) (now : ℕ)
    (plan : PeerPlan) : Type 0 where
  pub foreign : is_own v.sync_identity cand ≡ false
  pub fp : String
  pub name : String
  pub existing_ok : check_existing (Maps.get cand.id (peers_of v)) cand ≡ ok tt
  pub keys_new : find_entry (same_keys cand) (peers_of v) ≡ none
  pub name_ok : peer_name_re name ≡ true
  pub peer_lem : plan.peer ≡ new_peer (Maps.get cand.id (peers_of v)) cand name fp now
  pub vault_lem : plan.vault ≡ record v {
    sync_peers = some (
        Maps.set cand.id
          (new_peer (Maps.get cand.id (peers_of v)) cand name fp now)
          (without (find_entry (same_name cand name) (peers_of v)) (peers_of v)));
  }

not_eq_true : (b : Bool) → not b ≡ true → b ≡ false
not_eq_true b h = ground arith

is_some-none : {A : Type 0} (o : Option A) → is_some o ≡ false → o ≡ none
is_some-none none h = refl
is_some-none (some a) h = cc

pub ok_inj : {E A : Type 0} {a b : A} → ◌≡◌ {A = Result E A} (ok a) (ok b) → a ≡ b
ok_inj h = cc

validate_peer_name-ok :
    (n : String) {m : String} → validate_peer_name n ≡ ok m → peer_name_re m ≡ true
unfolding validate_peer_name
validate_peer_name-ok n h = elim (Bool-cases (peer_name_re n)) [
  | inl e ↦ let same = ok_inj (rw e at h) in rw (sym same) e
  | inr e ↦ absurd (cc (rw e at h))
]

module _ (fingerprint : String → String → Option String) where
  pub plan_peer_upsert-Accepted :
      (v : Vault) (cand : PeerCandidate) (ow ex : Bool) (now : ℕ) {plan : PeerPlan}
      → plan_peer_upsert fingerprint v cand ow ex now ≡ ok plan
      → Accepted v cand ow ex now plan
  unfolding plan_peer_upsert
  plan_peer_upsert-Accepted v cand ow ex now {plan} h =
      let a = >>=-eq-ok (require (not (is_own v.sync_identity cand)) _) _ h in
      let b = >>=-eq-ok (or_fail (fingerprint cand.ed25519 cand.x25519) _) _ a.2 in
      let c = >>=-eq-ok (check_existing (Maps.get cand.id (peers_of v)) cand) _ b.2 in
      let d =
        >>=-eq-ok (require (not (is_some (find_entry (same_keys cand) (peers_of v)))) _) _ c.2 in
      let e =
        >>=-eq-ok (validate_peer_name (chosen_name (Maps.get cand.id (peers_of v)) ex cand)) _
          d.2 in
      let f =
        >>=-eq-ok (require (not (is_some (find_entry (same_name cand e.0) (peers_of v))) || ow) _) _
          e.2 in
      record {
        foreign = not_eq_true _ (require-eq-ok _ _ a.1);
        fp = b.0;
        name = e.0;
        existing_ok = c.1;
        keys_new = is_some-none _ (not_eq_true _ (require-eq-ok _ _ d.1));
        name_ok = validate_peer_name-ok _ e.1;
        peer_lem = sym (ap (λ (x : PeerPlan). x.peer) (ok_inj f.2));
        vault_lem = sym (ap (λ (x : PeerPlan). x.vault) (ok_inj f.2));
      }

-- A table of peers in good order: names and keys belong to one peer each, and none is this vault's.
pub record IsTable (v : Vault) : Type 0 where
  pub is_map : IsMap (peers_of v)
  pub names :
      (i j : String) (p q : SyncPeer)
      → Maps.get i (peers_of v) ≡ some p
      → Maps.get j (peers_of v) ≡ some q
      → p.name ≡ q.name
      → i ≡ j
  pub keys :
      (i j : String) (p q : SyncPeer)
      → Maps.get i (peers_of v) ≡ some p
      → Maps.get j (peers_of v) ≡ some q
      → p.ed25519 ≡ q.ed25519
      → i ≡ j
  pub others :
      (own : SyncIdentity) (i : String) (p : SyncPeer)
      → v.sync_identity ≡ some own
      → Maps.get i (peers_of v) ≡ some p
      → (i ≢ own.id) × (p.ed25519 ≢ own.ed25519_public) × (p.x25519 ≢ own.x25519_public)

pub str_ne : (a b : String) → str_eq a b ≡ false → a ≢ b
str_ne a b h p = cc (h, (eq_iff a b).1 p)

str_eq_of_ne : (a b : String) → a ≢ b → str_eq a b ≡ false
str_eq_of_ne a b n = elim (Bool-cases (str_eq a b)) [
  | inl e ↦ absurd (n ((eq_iff a b).0 e))
  | inr e ↦ e
]

not_some-none : {A : Type 0} {a : A} → none ≢ some a
not_some-none h = cc

-- What stands in the table under another id than the candidate's, after the one of the same name
-- has gone.
get-without :
    (c : Option (String × SyncPeer)) (m : Map SyncPeer) (k : String) {p : SyncPeer}
    → Maps.get k (without c m) ≡ some p
    → Maps.get k m ≡ some p
get-without none m k h = h
get-without (some (j, q)) m k h = elim (Bool-cases (str_eq j k)) [
  | inl e ↦ absurd (not_some-none (rw (get-delete j k m, e) at h))
  | inr e ↦ rw (get-delete j k m, e) at h
]

pub without-IsMap :
    (c : Option (String × SyncPeer)) (m : Map SyncPeer) → IsMap m → IsMap (without c m)
without-IsMap none m v = v
without-IsMap (some (j, q)) m v = delete-IsMap j m v

new_peer-name :
    (o : Option SyncPeer) (cand : PeerCandidate) (name fp : String) (now : ℕ)
    → (new_peer o cand name fp now).name ≡ name
new_peer-name none cand name fp now = refl
new_peer-name (some e) cand name fp now = refl

-- A peer that is known has the keys and the role that it presents.
new_peer-keys :
    (o : Option SyncPeer) (cand : PeerCandidate) (name fp : String) (now : ℕ)
    → check_existing o cand ≡ ok tt
    → ((new_peer o cand name fp now).ed25519 ≡ cand.ed25519)
      × ((new_peer o cand name fp now).x25519 ≡ cand.x25519)
      × ((new_peer o cand name fp now).role ≡ cand.role)
unfolding check_existing
new_peer-keys none cand name fp now h = (refl, refl, refl)
new_peer-keys (some e) cand name fp now h =
    ground (arith, eq_iff e.ed25519 cand.ed25519, eq_iff e.x25519 cand.x25519)

module _ {v : Vault} {cand : PeerCandidate} {ow ex : Bool} {now : ℕ} {plan : PeerPlan}
    (t : IsTable v) (a : Accepted v cand ow ex now plan) where
  abbrev pub kept : Map SyncPeer
  kept = without (find_entry (same_name cand a.name) (peers_of v)) (peers_of v)

  pub get-plan :
      (k : String)
      → Maps.get k (peers_of plan.vault)
        ≡ (if str_eq cand.id k then some plan.peer else Maps.get k kept)
  get-plan k = rw (a.vault_lem, a.peer_lem) (get-set cand.id k _ kept)

  other_name :
      (k : String) (p : SyncPeer)
      → str_eq cand.id k ≡ false
      → Maps.get k kept ≡ some p
      → p.name ≢ a.name
  other_name k p n g = go (find_entry (same_name cand a.name) (peers_of v)) refl g
    where
      go :
          (c : Option (String × SyncPeer))
          → find_entry (same_name cand a.name) (peers_of v) ≡ c
          → Maps.get k (without c (peers_of v)) ≡ some p
          → p.name ≢ a.name
      go none e g h = ground (
        arith,
        find_entry-none (same_name cand a.name) (peers_of v) k e g,
        eq_iff k cand.id,
        eq_iff cand.id k,
        eq_iff p.name a.name,
      )
      go (some (j, q)) e g h =
          let found = find_entry-some (same_name cand a.name) (peers_of v) t.is_map e in
          let named : q.name ≡ a.name = ground (arith, eq_iff q.name a.name) in
          let same : k ≡ j =
            t.names k j p q (get-without (some (j, q)) (peers_of v) k g) found.1 (h ∙ sym named) in
          not_some-none (rw (get-delete j k (peers_of v), same, eq_refl) at g)

  -- What an entry of the new table is.
  pub entry :
      (k : String) (p : SyncPeer)
      → Maps.get k (peers_of plan.vault) ≡ some p
      → ((cand.id ≡ k) × (p ≡ plan.peer))
        ⊎ ((str_eq cand.id k ≡ false) × (Maps.get k (peers_of v) ≡ some p) × (p.name ≢ a.name))
  entry k p h = elim (Bool-cases (str_eq cand.id k)) [
    | inl e ↦ inl ((eq_iff cand.id k).0 e, cc (rw (get-plan k, e) at h))
    | inr e ↦
        let g = rw (get-plan k, e) at h in
        inr (e, get-without _ (peers_of v) k g, other_name k p e g)
  ]

  pub other_key :
      (k : String) (p : SyncPeer)
      → str_eq cand.id k ≡ false
      → Maps.get k (peers_of v) ≡ some p
      → p.ed25519 ≢ cand.ed25519
  other_key k p n g h = ground (
    arith,
    find_entry-none (same_keys cand) (peers_of v) k a.keys_new g,
    eq_iff k cand.id,
    eq_iff cand.id k,
    eq_iff p.ed25519 cand.ed25519,
  )

  pub plan_name : plan.peer.name ≡ a.name
  plan_name = rw a.peer_lem (new_peer-name _ cand a.name a.fp now)

  pub plan_keys :
      (plan.peer.ed25519 ≡ cand.ed25519)
      × (plan.peer.x25519 ≡ cand.x25519)
      × (plan.peer.role ≡ cand.role)
  plan_keys = rw a.peer_lem (new_peer-keys _ cand a.name a.fp now a.existing_ok)
