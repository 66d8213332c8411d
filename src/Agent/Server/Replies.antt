-- ===== src/Agent/Server/Replies.antt =====
-- src/agent/protocol.ts against src/agent/server.ts: which reply may come to which request.
use abracadabra.Common.{
  ℕ, String, str_eq, Bool, true, false, ◌&&◌, not, if◌then◌else◌, ◌≡◌, refl, Option, none, some,
  Result, ok, err, arith, is_some, inl, inr, Bool-cases, get_or,
}
use abracadabra.Common.Json.{Json}
use abracadabra.Common.Numbers.{Number}
use abracadabra.Core.Envelope.{VaultFile, EnvelopeError, decrypt_vault, encrypt_vault}
use abracadabra.Agent.Buffers.{Bytes}
use abracadabra.Agent.Grants.{Grant, GrantError, GrantCaller}
use abracadabra.Agent.State
use abracadabra.Agent.State.{AgentState, StateError}
use abracadabra.Agent.Protocol.{
  AgentVaultBinding, AgentOp, status, unlock, lock, grant_list, unlock_key, vault_load, vault_save,
  grant_add, grant_revoke, grant_check, AgentRequest, sensitive,
}
use abracadabra.Agent.Wire.{
  Host, AgentErrorCode, locked, mismatch, forbidden_peer, AgentReply, status_reply, unlocked,
  unlocked_by_key, locked_now, vault_empty, vault_saved, vault_loaded, grant_added, grants_listed,
  grants_revoked, grant_checked, failed, Outcome, reply, waits, Server, Turn, decode_master_key,
  check_vault_binding,
}
use abracadabra.Agent.Server

-- Whether a reply is one that the protocol has for the operation. `status` and `lock` have no error.
unfoldable pub fits_op : AgentOp → AgentReply → Bool
fits_op status (status_reply body node entry) = true
fits_op unlock unlocked = true
fits_op unlock (failed code reason) = true
fits_op (unlock_key key b) unlocked_by_key = true
fits_op (unlock_key key b) (failed code reason) = true
fits_op lock locked_now = true
fits_op (vault_load b) vault_empty = true
fits_op (vault_load b) (vault_loaded v) = true
fits_op (vault_load b) (failed code reason) = true
fits_op (vault_save v b) vault_saved = true
fits_op (vault_save v b) (failed code reason) = true
fits_op (grant_add project caller ttl) (grant_added grant) = true
fits_op (grant_add project caller ttl) (failed code reason) = true
fits_op grant_list (grants_listed items) = true
fits_op grant_list (failed code reason) = true
fits_op (grant_revoke target all) (grants_revoked n) = true
fits_op (grant_revoke target all) (failed code reason) = true
fits_op (grant_check project caller) (grant_checked r) = true
fits_op (grant_check project caller) (failed code reason) = true
fits_op op body = false

-- Only an `unlock` may be left waiting.
abbrev pub may_wait : AgentOp → Bool
may_wait unlock = true
may_wait op = false

abbrev pub Answers : AgentRequest → Outcome → Type 0
Answers req (reply r) = (r.id ≡ req.id) × (fits_op req.op r.body ≡ true)
Answers req (waits id) = (id ≡ req.id) × (may_wait req.op ≡ true)

module _ (host : Host) where
  open host use {sealer}

  -- A predicate of the reply passes through the guards of the handlers.
  module _ (op : AgentOp) (error : (c : AgentErrorCode) → fits_op op (failed c none) ≡ true) where
    unless_refused-fits :
        (s : Server sealer.Blob) (b : AgentVaultBinding) (path keystore : String)
        (body : Server.Reply host)
        → fits_op op body.1 ≡ true
        → fits_op op
            (Server.unless_refused host s (check_vault_binding host b path keystore) body).1
          ≡ true
    unfolding check_vault_binding
    unless_refused-fits s b path keystore body h = ground (arith, error mismatch)

    when_unlocked-fits :
        (s : Server sealer.Blob) (t : Turn) (body : AgentState → Server.Reply host)
        → ((a : AgentState) → fits_op op (body a).1 ≡ true)
        → fits_op op (Server.when_unlocked host s t.now body).1 ≡ true
    when_unlocked-fits s t body h = elim (Bool-cases (State.is_locked s.agent t.now).1) [
      | inl e ↦ rw e (error locked)
      | inr e ↦ rw e (h (State.is_locked s.agent t.now).0)
    ]

    pass_key-fits_op :
        (s : Server sealer.Blob) (a : AgentState) (r : Result StateError ℕ)
        (use_key : Server sealer.Blob → Bytes → Server.Reply host)
        → ((s' : Server sealer.Blob) (key : Bytes) → fits_op op (use_key s' key).1 ≡ true)
        → fits_op op (Server.pass_key host s a r use_key).1 ≡ true
    pass_key-fits_op s a (err e) use_key h = error locked
    pass_key-fits_op s a (ok place) use_key h = h _ _

    with_key-fits_op :
        (s : Server sealer.Blob) (a : AgentState) (t : Turn)
        (use_key : Server sealer.Blob → Bytes → Server.Reply host)
        → ((s' : Server sealer.Blob) (key : Bytes) → fits_op op (use_key s' key).1 ≡ true)
        → fits_op op (Server.with_key host s a t.now use_key).1 ≡ true
    with_key-fits_op s a t use_key h =
        let r = State.require_key a t.now in pass_key-fits_op s r.0 r.1 use_key h

  loaded-fits_op :
      (b : AgentVaultBinding) (r : Result EnvelopeError Json)
      → fits_op (vault_load b) (Server.loaded host r) ≡ true
  unfolding fits_op
  loaded-fits_op b (err e) = refl
  loaded-fits_op b (ok v) = ground arith

  load_unlocked-fits_op :
      (s : Server sealer.Blob) (b : AgentVaultBinding) (t : Turn) (a : AgentState)
      → fits_op (vault_load b) (Server.load_unlocked host s t a).1 ≡ true
  unfolding Server.load_unlocked fits_op
  load_unlocked-fits_op s b t a = go s.disk
    where
      loaded :
          (o : Option (VaultFile sealer.Blob)) (key : Bytes)
          → fits_op (vault_load b) (Server.load_with host o key) ≡ true
      loaded none key = refl
      loaded (some file) key = loaded-fits_op b (decrypt_vault sealer file key)

      go :
          (o : Option (VaultFile sealer.Blob))
          → fits_op
              (vault_load b)
              (if is_some o
                then (Server.with_key host s
                    (State.touch a t.now)
                    t.now
                    (λ s' key. (s', Server.load_with host s.disk key)))
                else (Server.with_agent host s (State.touch a t.now), vault_empty)).1
            ≡ true
      go none = refl
      go (some file) =
          with_key-fits_op (vault_load b) (λ c. refl) s (State.touch a t.now) t
            (λ s' key. (s', Server.load_with host s.disk key)) (λ s' key. loaded s.disk key)

  take_key-fits_op :
      (s : Server sealer.Blob) (key : String) (b : AgentVaultBinding) (decoded : Bytes) (now : ℕ)
      → fits_op (unlock_key key b) (Server.take_key host s decoded now).1 ≡ true
  unfolding Server.take_key fits_op
  take_key-fits_op s key b decoded now = ground arith

  take_decoded-fits_op :
      (s : Server sealer.Blob) (key : String) (b : AgentVaultBinding) (o : Option Bytes) (now : ℕ)
      → fits_op (unlock_key key b) (Server.take_decoded host s o now).1 ≡ true
  unfolding fits_op
  take_decoded-fits_op s key b none now = refl
  take_decoded-fits_op s key b (some decoded) now = take_key-fits_op s key b decoded now

  unlock_key-fits_op :
      (s : Server sealer.Blob) (key : String) (b : AgentVaultBinding) (t : Turn)
      → fits_op (unlock_key key b) (Server.handle_unlock_key host s key b t).1 ≡ true
  unfolding Server.handle_unlock_key fits_op
  unlock_key-fits_op s key b t = ground (
    arith,
    unless_refused-fits (unlock_key key b) (λ (c : AgentErrorCode). refl) s b s.vault_path
        s.keystore_backend
        (if not (str_eq (get_or b.keystore_backend "") "passphrase-file")
          then (s, failed mismatch none)
          else Server.take_decoded host s (decode_master_key host key) t.now),
    take_decoded-fits_op s key b (decode_master_key host key) t.now,
  )

  unlock-Answers :
      (id : String) (s : Server sealer.Blob) (t : Turn)
      → Answers
          (record { id = id; op = unlock })
          (Server.answered_or_waits host id (Server.handle_unlock host s t)).1
  unfolding Server.handle_unlock fits_op
  unlock-Answers id s t =
      let at_start =
        if str_eq s.keystore_backend "passphrase-file"
        then (State.is_locked s.agent t.now).0
        else s.agent in
      elim (Bool-cases
        (str_eq s.keystore_backend "passphrase-file" && (State.is_locked s.agent t.now).1)) [
          | inl e ↦ rw e (refl, refl)
          | inr e ↦ rw e (
              begun (Server.with_agent host s (State.unlock_begin at_start t.now).0)
                (State.unlock_begin at_start t.now).1)
        ]
    where
      begun :
          (u : Server sealer.Blob) (goes_on : Bool)
          → Answers
              (record { id = id; op = unlock })
              (Server.answered_or_waits host id (u, if goes_on then none else some unlocked)).1
      begun u true = (refl, refl)
      begun u false = (refl, refl)

  add_reply-fits_op :
      (project : String) (caller : GrantCaller) (ttl : Number) (r : Result GrantError Grant)
      → fits_op (grant_add project caller ttl) (Server.add_reply host r) ≡ true
  unfolding fits_op
  add_reply-fits_op project caller ttl (ok grant) = refl
  add_reply-fits_op project caller ttl (err e) = refl

  revoke_reply-fits_op :
      (target : Option String) (all : Bool) (r : Result GrantError ℕ)
      → fits_op (grant_revoke target all) (Server.revoke_reply host r) ≡ true
  unfolding fits_op
  revoke_reply-fits_op target all (ok n) = refl
  revoke_reply-fits_op target all (err e) = refl

  -- Every operation is answered in its own terms.
  dispatch-Answers :
      (s : Server sealer.Blob) (id : String) (op : AgentOp) (t : Turn)
      → Answers (record { id = id; op = op }) (Server.dispatch host s id op t).1
  unfolding Server.dispatch Server.handle_status Server.handle_lock Server.handle_vault_load
      Server.handle_vault_save Server.handle_grant_add Server.handle_grant_list
      Server.handle_grant_revoke Server.handle_grant_check fits_op
  dispatch-Answers s id status t = (refl, refl)
  dispatch-Answers s id unlock t = unlock-Answers id s t
  dispatch-Answers s id (unlock_key key b) t = (refl, unlock_key-fits_op s key b t)
  dispatch-Answers s id lock t = (refl, refl)
  dispatch-Answers s id (vault_load b) t = (
    refl,
    unless_refused-fits (vault_load b) (λ c. refl) s b s.vault_path s.keystore_backend
        (Server.when_unlocked host s t.now (Server.load_unlocked host s t))
        (when_unlocked-fits (vault_load b) (λ c. refl) s t (Server.load_unlocked host s t)
          (load_unlocked-fits_op s b t)),
  )
  dispatch-Answers s id (vault_save vault b) t = (
    refl,
    unless_refused-fits (vault_save vault b) (λ c. refl) s b s.vault_path s.keystore_backend
        (Server.when_unlocked host s t.now (Server.save_unlocked host s vault t))
        (when_unlocked-fits (vault_save vault b) (λ c. refl) s t
          (Server.save_unlocked host s vault t)
          λ a.
            with_key-fits_op (vault_save vault b) (λ c. refl) s (State.touch a t.now) t
              (λ s' key.
                (record s' { disk = some (encrypt_vault sealer vault key t.iv) }, vault_saved))
              (λ s' key. refl)),
  )
  dispatch-Answers s id (grant_add project caller ttl) t = (
    refl,
    when_unlocked-fits (grant_add project caller ttl) (λ c. refl) s t
        (Server.add_unlocked host s project caller ttl t)
        λ a. add_reply-fits_op project caller ttl _,
  )
  dispatch-Answers s id grant_list t = (
    refl,
    when_unlocked-fits grant_list (λ c. refl) s t (Server.list_unlocked host s t) λ a. refl,
  )
  dispatch-Answers s id (grant_revoke target all) t = (
    refl,
    when_unlocked-fits (grant_revoke target all) (λ c. refl) s t
        (Server.revoke_unlocked host s target all t) λ a. revoke_reply-fits_op target all _,
  )
  dispatch-Answers s id (grant_check project caller) t = (
    refl,
    when_unlocked-fits (grant_check project caller) (λ c. refl) s t
        (Server.check_unlocked host s project caller t) λ a. refl,
  )

  refused-Answers :
      (reason id : String) (op : AgentOp)
      → sensitive op ≡ true
      → Answers
          (record { id = id; op = op })
          (reply (record { id = id; body = failed forbidden_peer (some reason) }))
  unfolding fits_op sensitive
  refused-Answers reason id status h = absurd (cc)
  refused-Answers reason id lock h = absurd (cc)
  refused-Answers reason id _ h = (refl, refl)

  -- The reply of an `unlock` that waited.
  unlock_resolved-fits :
      (s : Server sealer.Blob) (key : Option Bytes) (now : ℕ)
      → fits_op unlock (Server.unlock_resolved host s key now).1 ≡ true
  unfolding Server.unlock_resolved fits_op
  unlock_resolved-fits s none now = refl
  unlock_resolved-fits s (some key) now = ground arith

  request-Answers :
      (s : Server sealer.Blob) (peer : Option String) (req : AgentRequest) (t : Turn)
      → Answers req (Server.handle_request host s peer req t).1
  unfolding Server.handle_request
  request-Answers s none req t = dispatch-Answers s req.id req.op t
  request-Answers s (some reason) req t = elim (Bool-cases (sensitive req.op)) [
    | inl e ↦ rw (e, Server.handle_request) (refused-Answers reason req.id req.op e)
    | inr e ↦ rw (e, Server.handle_request) (dispatch-Answers s req.id req.op t)
  ]

  -- Every request has an outcome of its own type: whatever the peer, the request and the state, the
  -- reply carries the id of the request and is one that the protocol has for its operation, and
  -- only an `unlock` may wait, for a reply that the protocol has for an `unlock`. A status or a lock
  -- is never answered with an error.
  pub handle_request-Answers :
      (s : Server sealer.Blob) (peer : Option String) (req : AgentRequest) (t : Turn)
      → Answers req (Server.handle_request host s peer req t).1
        × ((later : Server sealer.Blob) (key : Option Bytes) (now : ℕ)
            → fits_op unlock (Server.unlock_resolved host later key now).1 ≡ true)
  handle_request-Answers s peer req t = (request-Answers s peer req t, unlock_resolved-fits)
