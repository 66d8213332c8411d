-- ===== src/Pairing/Peers/Find.antt =====
-- What a search through the entries of the table finds.
use abracadabra.Common.{
  String, str_eq, eq_iff, eq_refl, Bool, true, false, ◌≡◌, refl, sym, ap, none, some, [], ◌∷◌, inl,
  inr, Bool-cases,
}
use abracadabra.Common.Maps
use abracadabra.Common.Maps.{Map, has, IsMap}
use abracadabra.Core.Vault.{SyncPeer}
use abracadabra.Pairing.Peers.{find_entry}

has-get : (k : String) (m : Map SyncPeer) {p : SyncPeer} → Maps.get k m ≡ some p → has k m ≡ true
has-get k m h = rw h refl

module _ (test : String → SyncPeer → Bool) where
  -- No entry passes where none is found.
  pub find_entry-none :
      (m : Map SyncPeer) (k : String) {p : SyncPeer}
      → find_entry test m ≡ none
      → Maps.get k m ≡ some p
      → test k p ≡ false
  unfolding find_entry Maps.get
  find_entry-none [] k h g = absurd (cc)
  find_entry-none ((j, q) ∷ m) k {p} h g = elim (Bool-cases (test j q)) [
    | inl e ↦ absurd (cc (rw e at h))
    | inr e ↦ elim (Bool-cases (str_eq j k)) [
      | inl f ↦
          let same_key : k ≡ j = sym ((eq_iff j k).0 f) in
          let same : p ≡ q = cc (rw f at g) in rw (same_key, same) e
      | inr f ↦ find_entry-none m k (rw e at h) (rw f at g)
    ]
  ]

  -- The entry that is found passes, and stands in the table.
  pub find_entry-some :
      (m : Map SyncPeer) {k : String} {p : SyncPeer}
      → IsMap m
      → find_entry test m ≡ some (k, p)
      → (test k p ≡ true) × (Maps.get k m ≡ some p)
  unfolding find_entry Maps.get
  find_entry-some [] v h = absurd (cc)
  find_entry-some ((j, q) ∷ m) {k} {p} v h = elim (Bool-cases (test j q)) [
    | inl e ↦
        let found = rw e at h in
        let same_key : k ≡ j = cc found in
        let same : p ≡ q = cc found in rw (same_key, same, eq_refl) (e, refl)
    | inr e ↦
        let rest = find_entry-some m v.1 (rw e at h) in
        (
          rest.0,
          elim (Bool-cases (str_eq j k)) [
            | inl f ↦ absurd (cc (has-get k m rest.1, ap (λ x. has x m) ((eq_iff j k).0 f), v.0))
            | inr f ↦ rw f rest.1
          ],
        )
  ]
