-- ===== src/Pairing/Session/Ending.antt =====
-- src/sync/pair.ts: the wait of each side of a pairing for its peer is bounded.
use abracadabra.Common.{
  ℕ, ◌+◌, ◌≤◌, String, str_eq, Bool, true, false, ◌&&◌, ◌≡◌, refl, Option, none, some, Result, ok,
  err, inl, inr, Bool-cases, arith,
}
use abracadabra.Common.Json.{field}
use abracadabra.Core.Vault.{Vault, SyncPeerRole}
use abracadabra.Pairing.Channel.{Msg, ChannelError}
use abracadabra.Pairing.Hello.{HelloError, own_hello, parse_hello, says_ok}
use abracadabra.Pairing.Peers.{PeerError, PeerPlan, Roles, resolve_roles}
use abracadabra.Pairing.Sas.{PairHello, connector, listener}
use abracadabra.Pairing.Session.{
  Proc, send, close, await_close, recv, ask, load, save, done, abort, Machine, PairSession,
  abort_with, invalid_hello, role_conflict, transcript_of, candidate_of, confirm_and_save, answered,
  after_save, peer_confirmed, save_plan, planned, has_signature, precheck_plan, on_signature,
  answer_hello, listener_session, check_listener, connector_roles, on_listener_hello,
  connector_session,
}
use abracadabra.Pairing.Session.Run.{World, Inbox, waiting, first_in, rest_in}

-- Whatever comes, the waits add up to at most `n`.
Within : ℕ → Proc → Type 0
Within n (send m p) = Within n p
Within n (close p) = Within n p
Within n (await_close ms p) = (rest : ℕ) × (ms + rest ≤ n) × Within rest p
Within n (recv ms k) =
    (rest : ℕ) × (ms + rest ≤ n) × ((r : Result ChannelError Msg) → Within rest (k r))
Within n (ask code k) = (a : Option Bool) → Within n (k a)
Within n (load k) = (v : Option Vault) → Within n (k v)
Within n (save v k) = (b : Bool) → Within n (k b)
Within n (done r) = Unit
Within n (abort e) = Unit

Within-waiting : (w : World) (n : ℕ) (p : Proc) (is : Inbox) → Within n p → waiting w p is ≤ n
unfolding Within
Within-waiting w n (send m p) is h = Within-waiting w n p is h
Within-waiting w n (close p) is h = Within-waiting w n p is h
Within-waiting w n (await_close ms p) is h = omega (arith, h.1, Within-waiting w h.0 p is (h.2))
Within-waiting w n (recv ms k) is h =
    omega (arith, h.1, Within-waiting w h.0 (k (first_in is)) (rest_in is) (h.2 (first_in is)))
Within-waiting w n (ask code k) is h = Within-waiting w n (k w.answer) is (h w.answer)
Within-waiting w n (load k) is h = Within-waiting w n (k w.vault) is (h w.vault)
Within-waiting w n (save v k) is h = Within-waiting w n (k w.can_save) is (h w.can_save)
Within-waiting w n (done r) is h = omega arith
Within-waiting w n (abort e) is h = omega arith

module _ (m : Machine) where
  open m.timeouts use {step_ms, confirm_ms, saved_ack_ms, close_ms}

  -- The acknowledgement, and the peer's close.
  abbrev end_ms : ℕ
  end_ms = saved_ack_ms + close_ms

  after_save-Within :
      (s : PairSession) (plan : PeerPlan) (b : Bool) → Within end_ms (after_save m s plan b)
  unfolding Within after_save
  after_save-Within s plan false = tt
  after_save-Within s plan true = (close_ms, omega arith, λ r. (0, omega arith, tt))

  save_plan-Within : (s : PairSession) (o : Option PeerPlan) → Within end_ms (save_plan m s o)
  unfolding Within save_plan
  save_plan-Within s none = tt
  save_plan-Within s (some plan) = after_save-Within s plan

  peer_confirmed-Within :
      (s : PairSession) (r : Result ChannelError Msg) → Within end_ms (peer_confirmed m s r)
  unfolding Within peer_confirmed
  peer_confirmed-Within s (err e) = tt
  peer_confirmed-Within s (ok msg) = elim (Bool-cases (str_eq msg.t "error")) [
    | inl e ↦ rw e tt
    | inr e ↦ elim (Bool-cases (str_eq msg.t "confirm" && says_ok msg)) [
      | inl c ↦ simp (e, c) (λ v. save_plan-Within s (planned m s v))
      | inr c ↦ simp (e, c) tt
    ]
  ]

  answered-Within :
      (s : PairSession) (a : Option Bool) → Within (confirm_ms + end_ms) (answered m s a)
  unfolding Within answered
  answered-Within s none = tt
  answered-Within s (some false) = tt
  answered-Within s (some true) = (end_ms, omega arith, peer_confirmed-Within s)

  confirm_and_save-Within : (s : PairSession) → Within (confirm_ms + end_ms) (confirm_and_save m s)
  unfolding Within confirm_and_save
  confirm_and_save-Within s = answered-Within s

  on_signature-Within :
      (theirs : PairHello) (s : PairSession) (r : Result ChannelError Msg)
      → Within (confirm_ms + end_ms) (on_signature m theirs s r)
  unfolding Within on_signature
  on_signature-Within theirs s (err e) = tt
  on_signature-Within theirs s (ok reply) = elim (Bool-cases (str_eq reply.t "error")) [
    | inl e ↦ rw e tt
    | inr e ↦
        elim (Bool-cases
          (str_eq reply.t "sig" && has_signature m theirs.ed25519 connector s.transcript reply)) [
            | inl c ↦ simp (e, c) (confirm_and_save-Within s)
            | inr c ↦ simp (e, c) tt
          ]
  ]

  module _ (tls_fingerprint : String) where
    answer_hello-Within :
        (remote : Option String) (theirs : PairHello) (roles : Roles)
        → Within
            (step_ms + (confirm_ms + end_ms))
            (answer_hello m tls_fingerprint remote theirs roles)
    unfolding Within answer_hello
    answer_hello-Within remote theirs roles =
        elim (Bool-cases (precheck_plan m (candidate_of m theirs roles.connector remote))) [
          | inr p ↦ rw (answer_hello, p) tt
          | inl p ↦
              rw (answer_hello, p) (confirm_ms + end_ms, omega arith, on_signature-Within theirs _)
        ]

    listener_session-Within :
        (role : SyncPeerRole) (remote : Option String) (first : Msg)
        → Within
            (step_ms + (confirm_ms + end_ms))
            (listener_session m role tls_fingerprint remote first)
    unfolding Within listener_session
    listener_session-Within role remote first =
        hello (parse_hello m.crypto (field "hello" first.members) false) refl
      where
        Goal : Type 0
        Goal =
            Within (step_ms + (confirm_ms + end_ms))
              (listener_session m role tls_fingerprint remote first)

        hello :
            (r : Result HelloError PairHello)
            → parse_hello m.crypto (field "hello" first.members) false ≡ r
            → Goal
        hello (err e) h = rw (h, listener_session) tt
        hello (ok theirs) h = checked (resolve_roles role theirs.role) refl
          where
            checked : (g : Result PeerError Roles) → resolve_roles role theirs.role ≡ g → Goal
            checked (err e) g = rw (h, listener_session, g) tt
            checked (ok roles) g =
                rw (h, listener_session, g) (answer_hello-Within remote theirs roles)

    module _ (host : String) (mine : PairHello) (requested : Option SyncPeerRole) where
      check_listener-Within :
          (theirs : PairHello) (roles : Roles) (reply : Msg)
          → Within
              (confirm_ms + end_ms)
              (check_listener m tls_fingerprint host mine theirs roles reply)
      unfolding Within check_listener
      check_listener-Within theirs roles reply =
          elim (Bool-cases (
            has_signature m theirs.ed25519 listener
              (transcript_of m tls_fingerprint theirs mine roles) reply)) [
                | inr v ↦ rw (check_listener, v) tt
                | inl v ↦
                    elim (Bool-cases
                      (precheck_plan m (candidate_of m theirs roles.listener (some host)))) [
                        | inr p ↦ rw (check_listener, v, p) tt
                        | inl p ↦ rw (check_listener, v, p) (confirm_and_save-Within _)
                      ]
              ]

      on_listener_hello-Within :
          (r : Result ChannelError Msg)
          → Within (confirm_ms + end_ms) (on_listener_hello m tls_fingerprint host requested mine r)
      unfolding Within on_listener_hello
      on_listener_hello-Within (err e) = tt
      on_listener_hello-Within (ok reply) = elim (Bool-cases (str_eq reply.t "error")) [
        | inl e ↦ rw e tt
        | inr e ↦ elim (Bool-cases (str_eq reply.t "hello")) [
          | inr k ↦ simp (e, k) tt
          | inl k ↦ simp (e, k) (hello (parse_hello m.crypto (field "hello" reply.members) true))
        ]
      ]
        where
          checked :
              (theirs : PairHello) (g : Result PeerError Roles)
              → Within (confirm_ms + end_ms) (elim g [
                | err e ↦ abort_with (role_conflict e)
                | ok roles ↦ check_listener m tls_fingerprint host mine theirs roles reply
              ])
          checked theirs (err e) = tt
          checked theirs (ok roles) = check_listener-Within theirs roles reply

          hello :
              (r : Result HelloError PairHello)
              → Within (confirm_ms + end_ms) (elim r [
                | err e ↦ abort_with (invalid_hello e)
                | ok theirs ↦ elim (connector_roles m theirs requested) [
                  | err e ↦ abort_with (role_conflict e)
                  | ok roles ↦ check_listener m tls_fingerprint host mine theirs roles reply
                ]
              ])
          hello (err e) = tt
          hello (ok theirs) = checked theirs (connector_roles m theirs requested)

-- Whatever messages come and fail to come, and whatever the user and the vault answer, a side's
-- session waits for the peer no longer in all than a step, a confirmation, an acknowledgement and the
-- close of the connection may take. The waits for the user and for the vault are not counted.
pub session_waiting :
    (m : Machine) (w : World) (tls_fingerprint : String) (role : SyncPeerRole)
    (remote : Option String) (first : Msg) (host pin : String) (requested : Option SyncPeerRole)
    (is : Inbox)
    → (waiting w (listener_session m role tls_fingerprint remote first) is
        ≤ m.timeouts.step_ms
          + (m.timeouts.confirm_ms + (m.timeouts.saved_ack_ms + m.timeouts.close_ms)))
      × (waiting w (connector_session m tls_fingerprint host pin requested) is
          ≤ m.timeouts.step_ms
            + (m.timeouts.confirm_ms + (m.timeouts.saved_ack_ms + m.timeouts.close_ms)))
unfolding connector_session Within
session_waiting m w tls_fingerprint role remote first host pin requested is =
    let mine = own_hello m.to_lower m.identity m.hostname m.nonce requested in
    let rest = m.timeouts.confirm_ms + (m.timeouts.saved_ack_ms + m.timeouts.close_ms) in
    (
      Within-waiting w _ (listener_session m role tls_fingerprint remote first) is
          (listener_session-Within m tls_fingerprint role remote first),
      Within-waiting w _ (connector_session m tls_fingerprint host pin requested) is
          (rest, omega arith, on_listener_hello-Within m tls_fingerprint host mine requested),
    )
