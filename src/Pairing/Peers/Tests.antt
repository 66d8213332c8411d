-- ===== src/Pairing/Peers/Tests.antt =====
-- Tests of src/sync/peers.ts.
use abracadabra.Common.{String, ◌≡◌, refl, false, Option, none, some, [], ◌∷◌, ok}
use abracadabra.Common.Maps
use abracadabra.Core.Vault.{Vault, SyncPeer, source}
use abracadabra.Pairing.Example.{laptop, desktop, vault_of}
use abracadabra.Pairing.Peers.{
  PeerCandidate, PeerPlan, add, update, plan_peer_upsert, find_entry, is_own, check_existing,
  validate_peer_name, peer_name_re, default_peer_name,
}
use abracadabra.Pairing.Peers.Rules.{IsTable}
use abracadabra.Pairing.Peers.Table.{plan_peer_upsert-IsTable}

abbrev fingerprint : String → String → Option String
fingerprint ed x = some "fp"

abbrev cand : PeerCandidate
cand = record {
  id = desktop.id;
  name = "desktop";
  ed25519 = desktop.ed25519_public;
  x25519 = desktop.x25519_public;
  role = source;
  address = some "10.0.0.2";
}

abbrev peer : SyncPeer
peer = record {
  name = "desktop";
  id_fingerprint = "fp";
  ed25519 = desktop.ed25519_public;
  x25519 = desktop.x25519_public;
  role = source;
  paired_at = 7;
  last_address = some "10.0.0.2";
}

abbrev paired : Vault
paired = record (vault_of laptop) { sync_peers = some ((desktop.id, peer) ∷ []) }

abbrev plan : PeerPlan
plan = record { action = add; vault = paired; peer = peer; replaced = none }

abbrev again : PeerPlan
again = record plan { action = update }

default_peer_name_test : default_peer_name (λ s. s) "My Mac--" ≡ "y-ac"
unfolding default_peer_name peer_name_re
default_peer_name_test = refl

plan_test : plan_peer_upsert fingerprint (vault_of laptop) cand false false 7 ≡ ok plan
unfolding plan_peer_upsert is_own check_existing find_entry validate_peer_name peer_name_re Maps.get
    Maps.set
plan_test = refl

again_test : plan_peer_upsert fingerprint paired cand false false 9 ≡ ok again
unfolding plan_peer_upsert is_own check_existing find_entry validate_peer_name peer_name_re Maps.get
    Maps.set
again_test = refl

no_peers-IsTable : IsTable (vault_of laptop)
unfolding Maps.get
no_peers-IsTable = record {
  is_map = tt;
  names = λ i j p q g h e. absurd (cc g);
  keys = λ i j p q g h e. absurd (cc g);
  others = λ own i p o g. absurd (cc g);
}

plan_peer_upsert-IsTable_example : IsTable plan.vault
plan_peer_upsert-IsTable_example =
    plan_peer_upsert-IsTable fingerprint (vault_of laptop) cand false false 7 plan no_peers-IsTable
      plan_test

paired-IsTable : IsTable paired
paired-IsTable =
    plan_peer_upsert-IsTable fingerprint (vault_of laptop) cand false false 7 plan no_peers-IsTable
      plan_test
