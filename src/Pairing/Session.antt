-- ===== src/Pairing/Session.antt =====
-- src/sync/pair.ts: the two sides of a pairing, after the socket is there. The texts of errors and
-- what is only shown are left out; the safety code that is shown goes with the question. `send` is
-- LineChannel.send, `recv` is LineChannel.next, `close` is LineChannel.close that is not awaited, and
-- `await_close` is `await s.ch.close()`. That pairListen and pairConnect await the same close when the
-- session has ended is left out.
pub mod Run
pub mod Safety
pub mod Sides
pub mod Ending
pub mod Success
pub mod Exchange
pub mod Meeting
mod Tests
pub use abracadabra.Pairing.Proc.{
  PairTimeouts, Abort, SaveProblem, PairResult, Proc, PairSession, Machine, default_pair_timeouts,
  abort_with, could_not_confirm, declined_here, no_confirmation, peer_aborted, peer_declined,
  not_saved, no_reply, refused, unexpected, bad_signature, table_conflict, invalid_hello,
  role_conflict, peer_failed, peer_error, unexpected_ack, no_ack, send, close, await_close, recv,
  ask, load, save, done, abort,
}
use abracadabra.Common.{
  ℕ, String, str_eq, Bool, true, false, ◌&&◌, not, Option, none, some, is_some, get_or, Result, ok,
  err, if◌then◌else◌,
}
use abracadabra.Common.Json.{Json, field, as_string}
use abracadabra.Agent.Buffers.{Bytes}
use abracadabra.Core.Vault.{Vault, SyncIdentity, SyncPeer, SyncPeerRole}
use abracadabra.Pairing.Channel.{Msg, ChannelError}
use abracadabra.Pairing.Hello.{
  HelloError, parse_hello, own_hello, msg, error_msg, connector_hello, listener_hello, sig_msg,
  confirm_msg, saved_msg, says_ok,
}
use abracadabra.Pairing.Identity.{Crypto, identity_fingerprint}
use abracadabra.Pairing.Peers.{
  PeerError, PeerCandidate, PeerPlan, Action, Roles, default_peer_name, plan_peer_upsert,
  resolve_roles,
}
use abracadabra.Pairing.Sas.{
  PairSide, listener, connector, PairHello, SafetyCode, TranscriptInput, transcript_hash,
  sign_transcript, verify_transcript, safety_code,
}

-- The vault that the peer is added to: the identity has to be the one the session began with.
unfoldable pub rebased : PairSession → Vault → Option Vault
rebased s fresh = elim s.identity_created [
  | true ↦
      if is_some fresh.sync_identity
      then none
      else some (record fresh { sync_identity = some s.identity })
  | false ↦ elim fresh.sync_identity [
    | none ↦ none
    | some own ↦ if str_eq own.id s.identity.id then some fresh else none
  ]
]

-- What the last message of the peer says, and why its save is not known.
unfoldable pub saved_ack : Result ChannelError Msg → Option SaveProblem
saved_ack (err e) = some no_ack
saved_ack (ok ack) =
    if str_eq ack.t "saved"
    then if says_ok ack then none else some peer_failed
    else if str_eq ack.t "error"
    then some peer_error
    else some unexpected_ack

module _ (m : Machine) where
  unfoldable pub finished : PairSession → PeerPlan → Option SaveProblem → PairResult
  finished s plan problem = record {
    peer_id = s.candidate.id;
    peer = plan.peer;
    action = plan.action;
    replaced = plan.replaced;
    code = safety_code m.crypto s.transcript;
    my_role = s.my_role;
    peer_saved = not (is_some problem);
    peer_save_error = problem;
  }

  abbrev pub save_failed : Proc
  save_failed = send (saved_msg false) (close (abort not_saved))

  unfoldable pub planned : PairSession → Option Vault → Option PeerPlan
  planned s none = none
  planned s (some fresh) = elim (rebased s fresh) [
    | none ↦ none
    | some base ↦
        elim (plan_peer_upsert (identity_fingerprint m.crypto) base s.candidate s.overwrite
          s.explicit_name m.now) [ err e ↦ none | ok plan ↦ some plan ]
  ]

  unfoldable pub after_save : PairSession → PeerPlan → (saved : Bool) → Proc
  after_save s plan false = save_failed
  after_save s plan true = send (saved_msg true) (
      recv m.timeouts.saved_ack_ms
        (λ ack. await_close m.timeouts.close_ms (done (finished s plan (saved_ack ack)))))

  unfoldable pub save_plan : PairSession → Option PeerPlan → Proc
  save_plan s none = save_failed
  save_plan s (some plan) = save plan.vault (after_save s plan)

  unfoldable pub peer_confirmed : PairSession → Result ChannelError Msg → Proc
  peer_confirmed s (err e) = close (abort no_confirmation)
  peer_confirmed s (ok peer_msg) =
      if str_eq peer_msg.t "error"
      then close (abort peer_aborted)
      else if str_eq peer_msg.t "confirm" && says_ok peer_msg
      then load (λ fresh. save_plan s (planned s fresh))
      else close (abort peer_declined)

  unfoldable pub answered : PairSession → (answer : Option Bool) → Proc
  answered s none = send (confirm_msg false) (close (abort could_not_confirm))
  answered s (some false) = send (confirm_msg false) (close (abort declined_here))
  answered s (some true) = send (confirm_msg true) (recv m.timeouts.confirm_ms (peer_confirmed s))

  unfoldable pub confirm_and_save : PairSession → Proc
  confirm_and_save s = ask (safety_code m.crypto s.transcript) (answered s)

  unfoldable pub candidate_of : PairHello → SyncPeerRole → (address : Option String) → PeerCandidate
  candidate_of theirs role address = record {
    id = theirs.id;
    name = get_or m.peer_name (default_peer_name m.to_lower theirs.name);
    ed25519 = theirs.ed25519;
    x25519 = theirs.x25519;
    role = role;
    address = address;
  }

  -- The local table of peers would take this one.
  unfoldable pub precheck_plan : PeerCandidate → Bool
  precheck_plan cand =
      elim (plan_peer_upsert (identity_fingerprint m.crypto) m.vault cand m.overwrite
        (is_some m.peer_name) m.now) [ ok plan ↦ true | err e ↦ false ]

  unfoldable pub session_of : PeerCandidate → SyncPeerRole → Bytes → PairSession
  session_of cand role transcript = record {
    transcript = transcript;
    identity = m.identity;
    identity_created = m.created;
    candidate = cand;
    my_role = role;
    overwrite = m.overwrite;
    explicit_name = is_some m.peer_name;
  }

  -- A text `sig` that verifies.
  unfoldable pub has_signature : (key : String) → PairSide → Bytes → Msg → Bool
  has_signature key side transcript reply = elim (as_string (field "sig" reply.members)) [
    | none ↦ false
    | some signature ↦ verify_transcript m.crypto key side transcript signature
  ]

  unfoldable pub on_signature : (theirs : PairHello) → PairSession → Result ChannelError Msg → Proc
  on_signature theirs s (err e) = close (abort no_reply)
  on_signature theirs s (ok reply) =
      if str_eq reply.t "error"
      then close (abort peer_aborted)
      else if str_eq reply.t "sig" && has_signature theirs.ed25519 connector s.transcript reply
      then confirm_and_save s
      else abort_with bad_signature

  unfoldable pub transcript_of : (tls_fingerprint : String) → (from to : PairHello) → Roles → Bytes
  transcript_of tls_fingerprint from to roles = transcript_hash m.crypto (record {
    tls_fingerprint = tls_fingerprint;
    listener = from;
    listener_role = roles.listener;
    connector = to;
    connector_role = roles.connector;
  })

  unfoldable pub answer_hello :
      (tls_fingerprint : String) → (remote : Option String) → PairHello → Roles → Proc
  answer_hello tls_fingerprint remote theirs roles =
      let mine = own_hello m.to_lower m.identity m.hostname m.nonce (some roles.listener) in
      let transcript = transcript_of tls_fingerprint mine theirs roles in
      let cand = candidate_of theirs roles.connector remote in
      elim (precheck_plan cand) [
        | false ↦ abort_with table_conflict
        | true ↦
            send (listener_hello mine (sign_transcript m.crypto m.identity listener transcript)) (
              recv m.timeouts.step_ms
                (on_signature theirs (session_of cand roles.listener transcript)))
      ]

  unfoldable pub listener_session :
      (role : SyncPeerRole) (tls_fingerprint : String)
      → (remote : Option String) → (first : Msg) → Proc
  listener_session role tls_fingerprint remote first =
      elim (parse_hello m.crypto (field "hello" first.members) false) [
        | err e ↦ abort_with (invalid_hello e)
        | ok theirs ↦ elim (resolve_roles role theirs.role) [
          | err e ↦ abort_with (role_conflict e)
          | ok roles ↦ answer_hello tls_fingerprint remote theirs roles
        ]
      ]

  unfoldable pub check_listener :
      (tls_fingerprint host : String) → (mine theirs : PairHello) → Roles → (reply : Msg) → Proc
  check_listener tls_fingerprint host mine theirs roles reply =
      let transcript = transcript_of tls_fingerprint theirs mine roles in
      let cand = candidate_of theirs roles.listener (some host) in
      elim (has_signature theirs.ed25519 listener transcript reply) [
        | false ↦ abort_with bad_signature
        | true ↦ elim (precheck_plan cand) [
          | false ↦ abort_with table_conflict
          | true ↦
              send (sig_msg (sign_transcript m.crypto m.identity connector transcript))
                (confirm_and_save (session_of cand roles.connector transcript))
        ]
      ]

  -- The role of a listener's hello is there: parse_hello asks for it.
  unfoldable pub connector_roles :
      PairHello → (requested : Option SyncPeerRole) → Result PeerError Roles
  connector_roles theirs requested = elim theirs.role [
    | none ↦ err PeerError.role_mismatch
    | some role ↦ resolve_roles role requested
  ]

  unfoldable pub on_listener_hello :
      (tls_fingerprint host : String)
      → (requested : Option SyncPeerRole) → PairHello
      → Result ChannelError Msg
      → Proc
  on_listener_hello tls_fingerprint host requested mine (err e) = close (abort no_reply)
  on_listener_hello tls_fingerprint host requested mine (ok reply) =
      if str_eq reply.t "error"
      then close (abort refused)
      else if not (str_eq reply.t "hello")
      then abort_with unexpected
      else elim (parse_hello m.crypto (field "hello" reply.members) true) [
        | err e ↦ abort_with (invalid_hello e)
        | ok theirs ↦ elim (connector_roles theirs requested) [
          | err e ↦ abort_with (role_conflict e)
          | ok roles ↦ check_listener tls_fingerprint host mine theirs roles reply
        ]
      ]

  unfoldable pub connector_session :
      (tls_fingerprint host pin : String) → (requested : Option SyncPeerRole) → Proc
  connector_session tls_fingerprint host pin requested =
      let mine = own_hello m.to_lower m.identity m.hostname m.nonce requested in
      send (connector_hello pin mine)
        (recv m.timeouts.step_ms (on_listener_hello tls_fingerprint host requested mine))
