-- ===== src/Pairing/Session/Tests.antt =====
-- Tests of src/sync/pair.ts, the sessions: a laptop that connects, and a desktop that listens.
use abracadabra.Common.{
  ℕ, ◌+◌, ◌≤◌, ◌≡◌, refl, String, Bool, true, false, Option, none, some, List, [], ◌∷◌, Result, ok,
  err, is_some,
}
use abracadabra.Core.Vault.{Vault, SyncIdentity, SyncPeer, SyncPeerRole, source, receiver}
use abracadabra.Pairing.Example.{crypto, laptop, desktop, vault_of, machine, signature}
use abracadabra.Pairing.Hello
use abracadabra.Pairing.Hello.{
  own_hello, hello_json, parse_hello, parse_hello-hello_json, parse_hello_role, utf16_length,
  IsHello, connector_hello, listener_hello, sig_msg, confirm_msg, saved_msg, says_ok,
}
use abracadabra.Pairing.Identity.{
  is_uuid, valid_public_keys, decode_raw_key, identity_fingerprint, id_digest,
}
use abracadabra.Pairing.Peers.{
  add, PeerPlan, Roles, default_peer_name, peer_name_re, plan_peer_upsert, resolve_roles, is_own,
  check_existing, find_entry, validate_peer_name,
}
use abracadabra.Pairing.Sas.{PairHello, safety_code, sign_transcript, verify_transcript}
use abracadabra.Pairing.Session.{
  Machine, PairSession, candidate_of, session_of, planned, rebased, finished, precheck_plan,
  listener_session, connector_session, done,
}
use abracadabra.Pairing.Session.Run.{World, Inbox, acts, waiting, sent, got}
use abracadabra.Pairing.Session.Ending.{session_waiting}
use abracadabra.Pairing.Session.Exchange.{Willing, exchange, goes_to, sends, goes_well, both_yes}
use abracadabra.Pairing.Session.Meeting.{
  Honest, meeting, session_c, session_l, hello_c, hello_l, sig_c, sig_l,
}

abbrev c : Machine
c = machine "laptop" laptop

abbrev l : Machine
l = machine "desktop" desktop

abbrev world_c : World
world_c = record { answer = some true; vault = some (vault_of laptop); can_save = true }

abbrev world_l : World
world_l = record { answer = some true; vault = some (vault_of desktop); can_save = true }

abbrev roles : Roles
roles = record { listener = source; connector = receiver }

-- How a machine keeps another one.
abbrev peer_for : SyncIdentity → (name : String) → SyncPeerRole → Option String → SyncPeer
peer_for i name role address = record {
  name = name;
  id_fingerprint = "0011 2233 4455 6677 8899 aabb ccdd eeff";
  ed25519 = i.ed25519_public;
  x25519 = i.x25519_public;
  role = role;
  paired_at = 7;
  last_address = address;
}

abbrev plan_for : SyncIdentity → SyncPeer → Vault → PeerPlan
plan_for i peer v = record {
  action = add;
  vault = record v { sync_peers = some ((i.id, peer) ∷ []) };
  peer = peer;
  replaced = none;
}

abbrev plan_c : PeerPlan
plan_c =
    plan_for desktop (peer_for desktop "desktop" source (some "desktop.local")) (vault_of laptop)

abbrev plan_l : PeerPlan
plan_l = plan_for laptop (peer_for laptop "laptop" receiver none) (vault_of desktop)

abbrev first_hello : PairHello
first_hello =
    hello_c c l world_c world_l "fp" "desktop.local" "123456" none source none roles plan_c plan_l

abbrev back_hello : PairHello
back_hello =
    hello_l c l world_c world_l "fp" "desktop.local" "123456" none source none roles plan_c plan_l

abbrev c_session : PairSession
c_session =
    session_c c l world_c world_l "fp" "desktop.local" "123456" none source none roles plan_c plan_l

abbrev l_session : PairSession
l_session =
    session_l c l world_c world_l "fp" "desktop.local" "123456" none source none roles plan_c plan_l

first_hello-IsHello : IsHello crypto first_hello
unfolding is_uuid valid_public_keys decode_raw_key utf16_length own_hello default_peer_name
    peer_name_re
first_hello-IsHello = record { id_ok = refl; name_ok = refl; keys_ok = refl; nonce_ok = refl }

back_hello-IsHello : IsHello crypto back_hello
unfolding is_uuid valid_public_keys decode_raw_key utf16_length own_hello default_peer_name
    peer_name_re
back_hello-IsHello = record { id_ok = refl; name_ok = refl; keys_ok = refl; nonce_ok = refl }

c_session-Willing : Willing c c_session world_c plan_c
unfolding planned precheck_plan rebased plan_peer_upsert candidate_of session_of is_own
    check_existing find_entry validate_peer_name own_hello default_peer_name peer_name_re
    identity_fingerprint id_digest decode_raw_key abracadabra.Common.Maps.get
    abracadabra.Common.Maps.set
c_session-Willing = record { yes = refl; planned_lem = refl; can_save = refl; prechecked = refl }

l_session-Willing : Willing l l_session world_l plan_l
unfolding planned precheck_plan rebased plan_peer_upsert candidate_of session_of is_own
    check_existing find_entry validate_peer_name own_hello default_peer_name peer_name_re
    identity_fingerprint id_digest decode_raw_key abracadabra.Common.Maps.get
    abracadabra.Common.Maps.set
l_session-Willing = record { yes = refl; planned_lem = refl; can_save = refl; prechecked = refl }

abbrev l_inbox : Inbox
l_inbox = ok (sig_msg signature) ∷ ok (confirm_msg true) ∷ []

abbrev c_inbox : Inbox
c_inbox = ok (listener_hello back_hello signature) ∷ ok (confirm_msg true) ∷ []

both_honest :
    Honest c l world_c world_l "fp" "desktop.local" "123456" none source none roles plan_c plan_l
unfolding resolve_roles verify_transcript sign_transcript decode_raw_key own_hello
both_honest = record {
  same_crypto = refl;
  hello_c_ok = first_hello-IsHello;
  hello_l_ok = back_hello-IsHello;
  roles_lem = refl;
  verifies_c = λ t. refl;
  verifies_l = λ t. refl;
  willing_c = c_session-Willing;
  willing_l = l_session-Willing;
}

abbrev signature_c : String
signature_c =
    sig_c c l world_c world_l "fp" "desktop.local" "123456" none source none roles plan_c plan_l

abbrev signature_l : String
signature_l =
    sig_l c l world_c world_l "fp" "desktop.local" "123456" none source none roles plan_c plan_l

meeting_example :
    let result_c = finished c c_session plan_c none in
    let result_l = finished l l_session plan_l none in
    (exchange 3 world_c world_l
        (goes_to world_c (connector_session c "fp" "desktop.local" "123456" none) [])
        (listener_session l source "fp" none (connector_hello "123456" first_hello))
        []
      ≡ (done result_c, done result_l))
    × (sends world_c (connector_session c "fp" "desktop.local" "123456" none) []
        ≡ connector_hello "123456" first_hello ∷ [])
    × (result_c.peer_saved ≡ true)
    × (result_l.peer_saved ≡ true)
    × (acts world_c
          (connector_session c "fp" "desktop.local" "123456" none)
          (ok (listener_hello back_hello signature_l) ∷ both_yes)
        ≡ sent (connector_hello "123456" first_hello)
          ∷ got (ok (listener_hello back_hello signature_l))
          ∷ sent (sig_msg signature_c)
          ∷ goes_well c c_session plan_c)
    × (acts world_l
          (listener_session l source "fp" none (connector_hello "123456" first_hello))
          (ok (sig_msg signature_c) ∷ both_yes)
        ≡ sent (listener_hello back_hello signature_l)
          ∷ got (ok (sig_msg signature_c))
          ∷ goes_well l l_session plan_l)
    × (safety_code crypto c_session.transcript ≡ safety_code crypto l_session.transcript)
    × (result_c.code ≡ result_l.code)
meeting_example =
    meeting c l world_c world_l "fp" "desktop.local" "123456" none source none roles plan_c plan_l
      both_honest

parse_hello-hello_json_example :
    parse_hello crypto (some (hello_json first_hello)) true ≡ err Hello.no_role
unfolding own_hello
parse_hello-hello_json_example = parse_hello-hello_json crypto first_hello true first_hello-IsHello

session_waiting_example :
    (waiting world_c
        (listener_session c source "fp" none (connector_hello "123456" first_hello))
        l_inbox
      ≤ 350000)
    × (waiting world_c (connector_session c "fp" "desktop.local" "123456" none) l_inbox ≤ 350000)
session_waiting_example =
    session_waiting c world_c "fp" source none (connector_hello "123456" first_hello)
      "desktop.local" "123456" none l_inbox
