-- ===== src/Pairing/Session/Sides.antt =====
-- src/sync/pair.ts: nothing is written by either side of a pairing before the peer has proved its key
-- and both users have said yes.
use abracadabra.Common.{String, true, false, ◌≡◌, ◌⊎◌, Option, some, List, [], ◌∷◌, ok}
use abracadabra.Common.Json.{field}
use abracadabra.Core.Vault.{Vault, SyncPeerRole}
use abracadabra.Pairing.Channel.{Msg}
use abracadabra.Pairing.Hello.{
  parse_hello, own_hello, connector_hello, listener_hello, sig_msg, confirm_msg,
}
use abracadabra.Pairing.Peers.{Roles, resolve_roles}
use abracadabra.Pairing.Sas.{listener, connector, PairHello, sign_transcript, safety_code}
use abracadabra.Pairing.Session.{
  Proc, Machine, PairSession, candidate_of, session_of, has_signature, transcript_of,
  listener_session, connector_roles, connector_session,
}
use abracadabra.Pairing.Session.Run.{
  World, Did, Inbox, acts, saves, first_in, rest_in, sent, got, asked, loaded, saved,
}
use abracadabra.Pairing.Session.Safety.{Confirmed}

module _ (m : Machine) (w : World) (tls_fingerprint : String) where
  -- A side that has sent the messages of `before` and confirmed: all that it did, in order.
  abbrev confirmed_acts : (s : PairSession) (is : Inbox) → Confirmed m s w is → List Did
  confirmed_acts s is c =
      asked (safety_code m.crypto s.transcript) (some true)
      ∷ sent (confirm_msg true)
      ∷ got (ok c.peer_msg)
      ∷ loaded
      ∷ saved c.plan.vault w.can_save
      ∷ c.after

  -- The session of a listener for a hello and its roles.
  abbrev pub listens : (remote : Option String) → PairHello → Roles → PairSession
  listens remote theirs roles =
      session_of m (candidate_of m theirs roles.connector remote) roles.listener (
        transcript_of m tls_fingerprint
          (own_hello m.to_lower m.identity m.hostname m.nonce (some roles.listener)) theirs roles)

  -- The peer's hello was taken, and it then signed the transcript with the key of that hello. After
  -- that the two users confirmed.
  pub record ListenerPaired (role : SyncPeerRole) (remote : Option String) (first : Msg)
      (is : Inbox) : Type 0 where
    pub theirs : PairHello
    pub hello_lem : parse_hello m.crypto (field "hello" first.members) false ≡ ok theirs
    pub roles : Roles
    pub roles_lem : resolve_roles role theirs.role ≡ ok roles
    pub reply : Msg
    pub came : first_in is ≡ ok reply
    pub signed :
        has_signature m theirs.ed25519 connector (listens remote theirs roles).transcript reply
        ≡ true
    pub confirmed : Confirmed m (listens remote theirs roles) w (rest_in is)
    pub order :
        acts w (listener_session m role tls_fingerprint remote first) is
        ≡ sent (
            listener_hello
              (own_hello m.to_lower m.identity m.hostname m.nonce (some roles.listener))
              (sign_transcript m.crypto m.identity listener
                (listens remote theirs roles).transcript))
          ∷ got (ok reply)
          ∷ confirmed_acts (listens remote theirs roles) (rest_in is) confirmed
    pub writes :
        saves (acts w (listener_session m role tls_fingerprint remote first) is)
        ≡ confirmed.plan.vault ∷ []

  -- The session of a connector for the hello of the listener and its roles.
  abbrev pub connects : (host : String) → (mine theirs : PairHello) → Roles → PairSession
  connects host mine theirs roles =
      session_of m (candidate_of m theirs roles.listener (some host)) roles.connector
        (transcript_of m tls_fingerprint theirs mine roles)

  pub record ConnectorPaired (host pin : String) (requested : Option SyncPeerRole) (is : Inbox)
      : Type 0 where
    pub reply : Msg
    pub came : first_in is ≡ ok reply
    pub theirs : PairHello
    pub hello_lem : parse_hello m.crypto (field "hello" reply.members) true ≡ ok theirs
    pub roles : Roles
    pub roles_lem : connector_roles m theirs requested ≡ ok roles
    pub signed :
        has_signature m theirs.ed25519 listener
          (transcript_of m tls_fingerprint theirs
            (own_hello m.to_lower m.identity m.hostname m.nonce requested)
            roles)
          reply
        ≡ true
    pub confirmed :
        Confirmed m
          (connects host
            (own_hello m.to_lower m.identity m.hostname m.nonce requested)
            theirs
            roles)
          w
          (rest_in is)
    pub order :
        acts w (connector_session m tls_fingerprint host pin requested) is
        ≡ sent (connector_hello pin (own_hello m.to_lower m.identity m.hostname m.nonce requested))
          ∷ got (ok reply)
          ∷ sent (
              sig_msg (
                sign_transcript m.crypto m.identity connector
                  (connects host
                    (own_hello m.to_lower m.identity m.hostname m.nonce requested)
                    theirs
                    roles).transcript))
          ∷ confirmed_acts
              (connects host
                (own_hello m.to_lower m.identity m.hostname m.nonce requested)
                theirs
                roles)
              (rest_in is)
              confirmed
    pub writes :
        saves (acts w (connector_session m tls_fingerprint host pin requested) is)
        ≡ confirmed.plan.vault ∷ []

  module _ (host pin : String) (requested : Option SyncPeerRole) (is : Inbox) where
    abbrev my_hello : PairHello
    my_hello = own_hello m.to_lower m.identity m.hostname m.nonce requested

    -- What is written where the session goes on with `p`.
    Writes : Proc → Type 0
    Writes p = (saves (acts w p (rest_in is)) ≡ []) ⊎ ConnectorPaired host pin requested is
