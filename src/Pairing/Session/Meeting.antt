-- ===== src/Pairing/Session/Meeting.antt =====
-- src/sync/pair.ts: an honest listener and an honest connector.
use mathlib.Core.Path.{subst}
use abracadabra.Common.{
  String, true, false, ◌≡◌, refl, sym, ap, ◌∙◌, Option, none, some, List, [], ◌∷◌, ok,
}
use abracadabra.Common.Json.{field}
use abracadabra.Agent.Buffers.{Bytes}
use abracadabra.Core.Vault.{SyncPeerRole}
use abracadabra.Pairing.Channel.{Msg}
use abracadabra.Pairing.Hello.{
  own_hello, IsHello, listener_hello, connector_hello, sig_msg, confirm_msg, saved_msg,
}
use abracadabra.Pairing.Peers.{PeerPlan, Roles, resolve_roles}
use abracadabra.Pairing.Sas.{
  PairHello, connector, listener, sign_transcript, verify_transcript, transcript_hash, safety_code,
}
use abracadabra.Pairing.Session.{
  Proc, send, recv, done, Machine, PairSession, SaveProblem, candidate_of, session_of,
  transcript_of, confirm_and_save, peer_confirmed, finished, on_signature, listener_session,
  connector_roles, on_listener_hello, connector_session,
}
use abracadabra.Pairing.Identity.{Crypto}
use abracadabra.Pairing.Session.Run.{World, Did, acts, sent, got}
use abracadabra.Pairing.Session.Success.{
  hello_taken, listener_answers, connector_answers, signature_taken, listener_signature,
  resolve_roles-again,
}
use abracadabra.Pairing.Session.Exchange.{
  goes_well, both_yes, confirm_and_save-goes_well, sends, goes_to, exchange, Willing, last_wait,
  confirm_and_save-sends, confirm_and_save-goes_to, peer_confirmed-sends, peer_confirmed-goes_to,
  saved_ack-saved, one_round,
}

-- A listener `l` and a connector `c` with honest keys, roles that fit, and users and vaults that take
-- the other machine.
module _ (c l : Machine) (wc wl : World) (tls_fingerprint host pin : String)
    (remote : Option String) (role : SyncPeerRole) (requested : Option SyncPeerRole) (roles : Roles)
    (plan_c plan_l : PeerPlan) where
  abbrev pub hello_c : PairHello
  hello_c = own_hello c.to_lower c.identity c.hostname c.nonce requested

  abbrev pub hello_l : PairHello
  hello_l = own_hello l.to_lower l.identity l.hostname l.nonce (some roles.listener)

  abbrev pub session_c : PairSession
  session_c =
      session_of c (candidate_of c hello_l roles.listener (some host)) roles.connector
        (transcript_of c tls_fingerprint hello_l hello_c roles)

  abbrev pub session_l : PairSession
  session_l =
      session_of l (candidate_of l hello_c roles.connector remote) roles.listener
        (transcript_of l tls_fingerprint hello_l hello_c roles)

  pub record Honest : Type 0 where
    pub same_crypto : c.crypto ≡ l.crypto
    pub hello_c_ok : IsHello l.crypto hello_c
    pub hello_l_ok : IsHello c.crypto hello_l
    pub roles_lem : resolve_roles role requested ≡ ok roles
    pub verifies_c :
        (t : Bytes)
        → verify_transcript l.crypto hello_c.ed25519 connector t
            (sign_transcript c.crypto c.identity connector t)
          ≡ true
    pub verifies_l :
        (t : Bytes)
        → verify_transcript c.crypto hello_l.ed25519 listener t
            (sign_transcript l.crypto l.identity listener t)
          ≡ true
    pub willing_c : Willing c session_c wc plan_c
    pub willing_l : Willing l session_l wl plan_l

  abbrev pub sig_c : String
  sig_c = sign_transcript c.crypto c.identity connector session_c.transcript

  abbrev pub sig_l : String
  sig_l = sign_transcript l.crypto l.identity listener session_l.transcript

  module _ (h : Honest) where
    same_transcript : session_c.transcript ≡ session_l.transcript
    unfolding session_of transcript_of
    same_transcript =
        ap
          (λ (k : Crypto). transcript_hash k (record {
            tls_fingerprint = tls_fingerprint;
            listener = hello_l;
            listener_role = roles.listener;
            connector = hello_c;
            connector_role = roles.connector;
          }))
          h.same_crypto

    listener_begins :
        listener_session l role tls_fingerprint remote (connector_hello pin hello_c)
        ≡ send
            (listener_hello hello_l sig_l)
            (recv l.timeouts.step_ms (on_signature l hello_c session_l))
    unfolding field own_hello candidate_of session_of
    listener_begins =
        listener_answers l tls_fingerprint role remote (connector_hello pin hello_c) hello_c roles
          (hello_taken l hello_c false _ h.hello_c_ok refl refl) h.roles_lem h.willing_l.prechecked

    listener_goes_on :
        on_signature l hello_c session_l (ok (sig_msg sig_c)) ≡ confirm_and_save l session_l
    listener_goes_on = signature_taken l hello_c session_l sig_c (
        subst
          (λ (t : Bytes).
            verify_transcript l.crypto hello_c.ed25519 connector session_l.transcript
              (sign_transcript c.crypto c.identity connector t)
            ≡ true)
          (sym same_transcript) (h.verifies_c session_l.transcript))

    connector_goes_on :
        on_listener_hello c tls_fingerprint host requested hello_c
          (ok (listener_hello hello_l sig_l))
        ≡ send (sig_msg sig_c) (confirm_and_save c session_c)
    unfolding field own_hello connector_roles candidate_of session_of
    connector_goes_on =
        connector_answers c tls_fingerprint host requested hello_c hello_l roles
          (listener_hello hello_l sig_l) refl (hello_taken c hello_l true _ h.hello_l_ok refl refl)
          (resolve_roles-again role requested roles h.roles_lem)
          (listener_signature c _ _ hello_l sig_l (
            subst
              (λ (t : Bytes). verify_transcript c.crypto hello_l.ed25519 listener t sig_l ≡ true)
              (sym same_transcript) (h.verifies_l session_l.transcript)))
          h.willing_c.prechecked

    began : Proc
    began = recv c.timeouts.step_ms (on_listener_hello c tls_fingerprint host requested hello_c)

    abbrev confirming : Proc
    confirming = recv c.timeouts.confirm_ms (peer_confirmed c session_c)

    abbrev signing : Proc
    signing = recv l.timeouts.step_ms (on_signature l hello_c session_l)

    abbrev acknowledged : Proc
    acknowledged = last_wait h.willing_l

    abbrev opened : Proc
    opened = listener_session l role tls_fingerprint remote (connector_hello pin hello_c)

    first_round :
        exchange 3 wc wl began opened []
        ≡ exchange 2 wc wl confirming signing (sig_msg sig_c ∷ confirm_msg true ∷ [])
    unfolding began
    first_round =
        one_round 2 wc wl began opened [] (ap (λ (p : Proc). sends wl p []) listener_begins)
          (ap (λ (p : Proc). goes_to wl p []) listener_begins)
          (ap (λ (p : Proc). sends wc p []) connector_goes_on
            ∙ ap (λ (ms : List Msg). sig_msg sig_c ∷ ms) (confirm_and_save-sends h.willing_c []))
          (ap (λ (p : Proc). goes_to wc p []) connector_goes_on
            ∙ confirm_and_save-goes_to h.willing_c [])

    second_round :
        exchange 2 wc wl confirming signing (sig_msg sig_c ∷ confirm_msg true ∷ [])
        ≡ exchange 1 wc wl
            (done (finished c session_c plan_c none))
            acknowledged
            (saved_msg true ∷ [])
    second_round =
        let yes = confirm_msg true ∷ [] in
        one_round 1 wc wl confirming signing (sig_msg sig_c ∷ yes)
          (ap (λ (p : Proc). sends wl p yes) listener_goes_on
            ∙ confirm_and_save-sends h.willing_l yes
            ∙ ap (λ (ms : List Msg). confirm_msg true ∷ ms) (peer_confirmed-sends h.willing_l []))
          (ap (λ (p : Proc). goes_to wl p yes) listener_goes_on
            ∙ confirm_and_save-goes_to h.willing_l yes
            ∙ peer_confirmed-goes_to h.willing_l [])
          (peer_confirmed-sends h.willing_c (saved_msg true ∷ []))
          (peer_confirmed-goes_to h.willing_c (saved_msg true ∷ [])
            ∙ ap (λ (o : Option SaveProblem). done (finished c session_c plan_c o)) saved_ack-saved)

    last_round :
        exchange 1 wc wl
          (done (finished c session_c plan_c none))
          acknowledged
          (saved_msg true ∷ [])
        ≡ (done (finished c session_c plan_c none), done (finished l session_l plan_l none))
    last_round =
        ap
          (λ (o : Option SaveProblem).
            (done (finished c session_c plan_c none), done (finished l session_l plan_l o)))
          saved_ack-saved

    connector_acts :
        acts wc
          (connector_session c tls_fingerprint host pin requested)
          (ok (listener_hello hello_l sig_l) ∷ both_yes)
        ≡ sent (connector_hello pin hello_c)
          ∷ got (ok (listener_hello hello_l sig_l))
          ∷ sent (sig_msg sig_c)
          ∷ goes_well c session_c plan_c
    unfolding connector_session
    connector_acts =
        ap
          (λ (p : Proc).
            sent (connector_hello pin hello_c)
            ∷ got (ok (listener_hello hello_l sig_l))
            ∷ acts wc p both_yes)
          connector_goes_on
        ∙ ap
            (λ (ds : List Did).
              sent (connector_hello pin hello_c)
              ∷ got (ok (listener_hello hello_l sig_l))
              ∷ sent (sig_msg sig_c)
              ∷ ds)
            (confirm_and_save-goes_well h.willing_c)

    listener_acts :
        acts wl opened (ok (sig_msg sig_c) ∷ both_yes)
        ≡ sent (listener_hello hello_l sig_l)
          ∷ got (ok (sig_msg sig_c))
          ∷ goes_well l session_l plan_l
    listener_acts =
        ap (λ (p : Proc). acts wl p (ok (sig_msg sig_c) ∷ both_yes)) listener_begins
        ∙ ap
            (λ (p : Proc).
              sent (listener_hello hello_l sig_l) ∷ got (ok (sig_msg sig_c)) ∷ acts wl p both_yes)
            listener_goes_on
        ∙ ap
            (λ (ds : List Did). sent (listener_hello hello_l sig_l) ∷ got (ok (sig_msg sig_c)) ∷ ds)
            (confirm_and_save-goes_well h.willing_l)

    same_code :
        safety_code c.crypto session_c.transcript ≡ safety_code l.crypto session_l.transcript
    same_code =
        ap (λ (k : Crypto). safety_code k session_c.transcript) h.same_crypto
        ∙ ap (safety_code l.crypto) same_transcript

    -- Two honest sides with the same cryptography, whose hellos are well formed, whose signatures
    -- verify, whose roles fit, whose users say yes, and whose vaults can be read and written and
    -- take the other machine, finish over channels that lose nothing after three rounds, and each
    -- knows that the other has saved. Each, on the very messages that the other has sent, has shown
    -- its user the safety code of the transcript, then exchanged the confirmations, then written once
    -- the plan for its vault as read back, and then exchanged the acknowledgements; and the two codes
    -- that were shown are the same.
    pub meeting :
        let result_c = finished c session_c plan_c none in
        let result_l = finished l session_l plan_l none in
        (exchange 3 wc wl
            (goes_to wc (connector_session c tls_fingerprint host pin requested) [])
            (listener_session l role tls_fingerprint remote (connector_hello pin hello_c))
            []
          ≡ (done result_c, done result_l))
        × (sends wc (connector_session c tls_fingerprint host pin requested) []
            ≡ connector_hello pin hello_c ∷ [])
        × (result_c.peer_saved ≡ true)
        × (result_l.peer_saved ≡ true)
        × (acts wc
              (connector_session c tls_fingerprint host pin requested)
              (ok (listener_hello hello_l sig_l) ∷ both_yes)
            ≡ sent (connector_hello pin hello_c)
              ∷ got (ok (listener_hello hello_l sig_l))
              ∷ sent (sig_msg sig_c)
              ∷ goes_well c session_c plan_c)
        × (acts wl
              (listener_session l role tls_fingerprint remote (connector_hello pin hello_c))
              (ok (sig_msg sig_c) ∷ both_yes)
            ≡ sent (listener_hello hello_l sig_l)
              ∷ got (ok (sig_msg sig_c))
              ∷ goes_well l session_l plan_l)
        × (safety_code c.crypto session_c.transcript ≡ safety_code l.crypto session_l.transcript)
        × (result_c.code ≡ result_l.code)
    unfolding connector_session finished began
    meeting = (
      first_round ∙ second_round ∙ last_round,
      refl,
      refl,
      refl,
      connector_acts,
      listener_acts,
      same_code,
      same_code,
    )
