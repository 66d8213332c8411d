-- ===== src/Pairing/Session/Success.antt =====
-- src/sync/pair.ts: what each step of a pairing does where nothing goes wrong.
use mathlib.Core.Path.{subst}
use abracadabra.Common.{
  String, str_eq, Bool, true, false, not, ◌||◌, ◌≡◌, refl, Option, none, some, is_some, ok, inl,
  inr, Bool-cases,
}
use abracadabra.Common.Json.{Json, field}
use abracadabra.Agent.Buffers.{Bytes}
use abracadabra.Core.Vault.{SyncPeerRole}
use abracadabra.Pairing.Channel.{Msg}
use abracadabra.Pairing.Hello.{
  parse_hello, hello_json, parse_hello-hello_json, IsHello, own_hello, listener_hello, sig_msg,
}
use abracadabra.Pairing.Peers.{Roles, resolve_roles, role_eq, opposite_role}
use abracadabra.Pairing.Sas.{PairHello, connector, listener, sign_transcript, verify_transcript}
use abracadabra.Pairing.Session.{
  send, recv, Machine, PairSession, candidate_of, session_of, transcript_of, confirm_and_save,
  has_signature, precheck_plan, on_signature, answer_hello, listener_session, check_listener,
  connector_roles, on_listener_hello,
}

resolve_roles-listener :
    (role : SyncPeerRole) (requested : Option SyncPeerRole) (roles : Roles)
    → resolve_roles role requested ≡ ok roles
    → role ≡ roles.listener
unfolding resolve_roles
resolve_roles-listener role none roles h = cc h
resolve_roles-listener role (some r) roles h = elim (Bool-cases (role_eq r (opposite_role role))) [
  | inl e ↦ cc (rw e at h)
  | inr e ↦ absurd (cc (rw e at h))
]

pub resolve_roles-again :
    (role : SyncPeerRole) (requested : Option SyncPeerRole) (roles : Roles)
    → resolve_roles role requested ≡ ok roles
    → resolve_roles roles.listener requested ≡ ok roles
resolve_roles-again role requested roles h =
    subst (λ (x : SyncPeerRole). resolve_roles x requested ≡ ok roles)
      (resolve_roles-listener role requested roles h) h

pub hello_taken :
    (m : Machine) (h : PairHello) (required : Bool) (j : Option Json)
    → IsHello m.crypto h
    → (not required || is_some h.role) ≡ true
    → j ≡ some (hello_json h)
    → parse_hello m.crypto j required ≡ ok h
hello_taken m h required j v r e = rw (e, parse_hello-hello_json m.crypto h required v, r) refl

module _ (m : Machine) (tls_fingerprint : String) where
  pub listener_answers :
      (role : SyncPeerRole) (remote : Option String) (first : Msg) (theirs : PairHello)
      (roles : Roles)
      → parse_hello m.crypto (field "hello" first.members) false ≡ ok theirs
      → resolve_roles role theirs.role ≡ ok roles
      → precheck_plan m (candidate_of m theirs roles.connector remote) ≡ true
      → let mine = own_hello m.to_lower m.identity m.hostname m.nonce (some roles.listener) in
        let transcript = transcript_of m tls_fingerprint mine theirs roles in
        listener_session m role tls_fingerprint remote first
        ≡ send (listener_hello mine (sign_transcript m.crypto m.identity listener transcript)) (
            recv m.timeouts.step_ms (
              on_signature m theirs (
                session_of m
                  (candidate_of m theirs roles.connector remote)
                  roles.listener
                  transcript)))
  unfolding listener_session answer_hello
  listener_answers role remote first theirs roles h g p =
      rw (h, listener_session, g, answer_hello, p) refl

  pub connector_answers :
      (host : String) (requested : Option SyncPeerRole) (mine theirs : PairHello) (roles : Roles)
      (reply : Msg)
      → reply.t ≡ "hello"
      → parse_hello m.crypto (field "hello" reply.members) true ≡ ok theirs
      → connector_roles m theirs requested ≡ ok roles
      → has_signature m theirs.ed25519 listener
          (transcript_of m tls_fingerprint theirs mine roles)
          reply
        ≡ true
      → precheck_plan m (candidate_of m theirs roles.listener (some host)) ≡ true
      → let transcript = transcript_of m tls_fingerprint theirs mine roles in
        on_listener_hello m tls_fingerprint host requested mine (ok reply)
        ≡ send (sig_msg (sign_transcript m.crypto m.identity connector transcript)) (
            confirm_and_save m (
              session_of m
                (candidate_of m theirs roles.listener (some host))
                roles.connector
                transcript))
  unfolding on_listener_hello check_listener
  connector_answers host requested mine theirs roles reply t h g v p =
      let not_error : str_eq reply.t "error" ≡ false = rw t refl in
      let is_hello : str_eq reply.t "hello" ≡ true = rw t refl in
      simp (not_error, is_hello, h, g) (rw (check_listener, v, p) refl)

pub signature_taken :
    (m : Machine) (theirs : PairHello) (s : PairSession) (signature : String)
    → verify_transcript m.crypto theirs.ed25519 connector s.transcript signature ≡ true
    → on_signature m theirs s (ok (sig_msg signature)) ≡ confirm_and_save m s
unfolding on_signature has_signature field
signature_taken m theirs s signature v = rw v refl

pub listener_signature :
    (m : Machine) (key : String) (transcript : Bytes) (h : PairHello) (signature : String)
    → verify_transcript m.crypto key listener transcript signature ≡ true
    → has_signature m key listener transcript (listener_hello h signature) ≡ true
unfolding has_signature field
listener_signature m key transcript h signature v = v
