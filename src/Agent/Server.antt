-- ===== src/Agent/Server.antt =====
-- src/agent/server.ts: `handleRequest`, one function to a case of its `switch`.
-- A request is handled in one step after the check of its peer, except `unlock`, which waits for
-- the keystore: its second part is `unlock_resolved`.
pub mod Sound
pub mod Replies
pub mod TakeKey
pub mod Reach
pub mod Access
mod Tests
use abracadabra.Common.{
  ℕ, String, str_eq, Bool, true, false, ◌&&◌, not, if◌then◌else◌, Option, none, some, Result, ok,
  err, length, is_some, get_or,
}
use abracadabra.Common.Json.{Json}
use abracadabra.Common.Numbers.{Number}
use abracadabra.Core.Envelope.{VaultFile, EnvelopeError, encrypt_vault, decrypt_vault}
use abracadabra.Agent.Buffers.{Bytes, alloc, fill, read}
use abracadabra.Agent.Grants
use abracadabra.Agent.Grants.{
  Grant, GrantCaller, GrantListItem, GrantCheckResult, GrantStore, GrantError,
}
use abracadabra.Agent.State
use abracadabra.Agent.State.{AgentState, AgentStatusBody, StateError}
use abracadabra.Agent.Protocol.{
  AgentVaultBinding, AgentOp, status, unlock, lock, grant_list, unlock_key, vault_load, vault_save,
  grant_add, grant_revoke, grant_check, AgentRequest, sensitive,
}
use abracadabra.Agent.Wire.{
  Host, locked, unavailable, mismatch, forbidden_peer, bad_request, internal, AgentReply,
  status_reply, unlocked, unlocked_by_key, locked_now, vault_empty, vault_saved, vault_loaded,
  grant_added, grants_listed, grants_revoked, grant_checked, failed, Outcome, reply, waits, Server,
  Turn, fail, with_defaults, decode_master_key, check_vault_binding,
}

module _ (host : Host) where
  open host use {sealer}

  abbrev pub Reply : Type 0
  Reply = Server sealer.Blob × AgentReply

  abbrev pub with_agent : Server sealer.Blob → AgentState → Server sealer.Blob
  with_agent s a = record s { agent = a }

  unfoldable pub handle_status : Server sealer.Blob → Turn → Reply
  handle_status s t =
      let (a, body) = State.status s.agent t.now in
      (with_agent s a, status_reply body t.node_path t.entry_path)

  -- With no key yet the reply is left open: `none`.
  unfoldable pub handle_unlock : Server sealer.Blob → Turn → Server sealer.Blob × Option AgentReply
  handle_unlock s t =
      let (a, is_locked) = State.is_locked s.agent t.now in
      if str_eq s.keystore_backend "passphrase-file" && is_locked
      then (with_agent s a, some (fail locked))
      else let a' = if str_eq s.keystore_backend "passphrase-file" then a else s.agent in
        let (u, goes_on) = State.unlock_begin a' t.now in
        (with_agent s u, if goes_on then none else some unlocked)

  -- `unlock` after its `await`: `none` for a keystore that refuses.
  unfoldable pub unlock_resolved : Server sealer.Blob → Option Bytes → ℕ → Reply
  unlock_resolved s none now = (s, fail unavailable)
  unlock_resolved s (some key) now =
      let (a, r) = State.unlock_finish s.agent key now in
      (with_agent s a, elim r [ ok u ↦ unlocked | err e ↦ fail unavailable ])

  -- Whether the file, if there is one, opens with the pushed key.
  abbrev pub opens_with : Option (VaultFile sealer.Blob) → Bytes → Bool
  opens_with none key = true
  opens_with (some file) key = elim (decrypt_vault sealer file key) [ ok v ↦ true | err e ↦ false ]

  -- The `try` of `unlock.key`; the decoded buffer is filled with zeros whatever happens.
  unfoldable pub take_key : Server sealer.Blob → Bytes → ℕ → Reply
  take_key s decoded now =
      let place = length s.agent.heap in
      let a : AgentState = record (s.agent) { heap = alloc s.agent.heap decoded } in
      if not (opens_with s.disk decoded)
      then (with_agent s (record a { heap = fill a.heap place }), fail bad_request)
      else let (u, r) = State.unlock_with_key a decoded now in
        (
          with_agent s (record u { heap = fill u.heap place }),
          elim r [ ok x ↦ unlocked_by_key | err e ↦ fail bad_request ],
        )

  -- `if (bindErr) return bindErr;`
  abbrev pub unless_refused : Server sealer.Blob → Option AgentReply → Reply → Reply
  unless_refused s (some refusal) body = (s, refusal)
  unless_refused s none body = body

  abbrev pub take_decoded : Server sealer.Blob → Option Bytes → ℕ → Reply
  take_decoded s none now = (s, fail bad_request)
  take_decoded s (some decoded) now = take_key s decoded now

  unfoldable pub handle_unlock_key : Server sealer.Blob → String → AgentVaultBinding → Turn → Reply
  handle_unlock_key s key b t =
      if not (str_eq s.keystore_backend "passphrase-file")
      then (s, fail mismatch)
      else unless_refused s (check_vault_binding host b s.vault_path s.keystore_backend) (
          if not (str_eq (get_or b.keystore_backend "") "passphrase-file")
          then (s, fail mismatch)
          else take_decoded s (decode_master_key host key) t.now)

  unfoldable pub handle_lock : Server sealer.Blob → Reply
  handle_lock s = (with_agent s (State.lock s.agent), locked_now)

  -- `isLocked()`: the guard of every operation that needs the key or the grants.
  abbrev pub when_unlocked : Server sealer.Blob → ℕ → (AgentState → Reply) → Reply
  when_unlocked s now body =
      let (a, is_locked) = State.is_locked s.agent now in
      if is_locked then (with_agent s a, fail locked) else body a

  abbrev pub loaded : Result EnvelopeError Json → AgentReply
  loaded (err e) = fail internal
  loaded (ok v) = elim (with_defaults v) [ none ↦ fail internal | some w ↦ vault_loaded w ]

  abbrev pub load_with : Option (VaultFile sealer.Blob) → Bytes → AgentReply
  load_with none key = vault_empty
  load_with (some file) key = loaded (decrypt_vault sealer file key)

  abbrev pub pass_key :
      Server sealer.Blob
      → AgentState
      → Result StateError ℕ
      → (Server sealer.Blob → Bytes → Reply)
      → Reply
  pass_key s a (err e) use_key = (with_agent s a, fail locked)
  pass_key s a (ok place) use_key = use_key (with_agent s a) (read a.heap place)

  -- `requireKey()`, with what is done with the key; a throw is answered with its code.
  abbrev pub with_key :
      Server sealer.Blob → AgentState → ℕ → (Server sealer.Blob → Bytes → Reply) → Reply
  with_key s a now use_key = let (a', r) = State.require_key a now in pass_key s a' r use_key

  unfoldable pub load_unlocked : Server sealer.Blob → Turn → AgentState → Reply
  load_unlocked s t a =
      let a' = State.touch a t.now in
      if is_some s.disk
      then with_key s a' t.now (λ s' key. (s', load_with s.disk key))
      else (with_agent s a', vault_empty)

  unfoldable pub handle_vault_load : Server sealer.Blob → AgentVaultBinding → Turn → Reply
  unfolding load_unlocked
  handle_vault_load s b t =
      unless_refused s (check_vault_binding host b s.vault_path s.keystore_backend)
        (when_unlocked s t.now (load_unlocked s t))

  unfoldable pub save_unlocked : Server sealer.Blob → Json → Turn → AgentState → Reply
  save_unlocked s vault t a =
      with_key s (State.touch a t.now) t.now
        (λ s' key. (record s' { disk = some (encrypt_vault sealer vault key t.iv) }, vault_saved))

  unfoldable pub handle_vault_save : Server sealer.Blob → Json → AgentVaultBinding → Turn → Reply
  unfolding save_unlocked
  handle_vault_save s vault b t =
      unless_refused s (check_vault_binding host b s.vault_path s.keystore_backend)
        (when_unlocked s t.now (save_unlocked s vault t))

  -- The grants are those of the unlocked agent; neither timer of the key is touched.
  abbrev pub with_grants : Server sealer.Blob → AgentState → GrantStore → Server sealer.Blob
  with_grants s a g = with_agent s (record a { grants = g })

  abbrev pub add_reply : Result GrantError Grant → AgentReply
  add_reply (ok grant) = grant_added (Grants.grant_public_view grant)
  add_reply (err e) = fail bad_request

  unfoldable pub add_unlocked :
      Server sealer.Blob → String → GrantCaller → Number → Turn → AgentState → Reply
  add_unlocked s project caller ttl t a =
      let (g, r) = Grants.add a.grants project caller ttl t.now t.grant_id in
      (with_grants s a g, add_reply r)

  unfoldable pub handle_grant_add :
      Server sealer.Blob → String → GrantCaller → Number → Turn → Reply
  unfolding add_unlocked
  handle_grant_add s project caller ttl t =
      when_unlocked s t.now (add_unlocked s project caller ttl t)

  unfoldable pub list_unlocked : Server sealer.Blob → Turn → AgentState → Reply
  list_unlocked s t a =
      let (g, items) = Grants.list a.grants t.now in (with_grants s a g, grants_listed items)

  unfoldable pub handle_grant_list : Server sealer.Blob → Turn → Reply
  unfolding list_unlocked
  handle_grant_list s t = when_unlocked s t.now (list_unlocked s t)

  abbrev pub revoke_reply : Result GrantError ℕ → AgentReply
  revoke_reply (ok n) = grants_revoked n
  revoke_reply (err e) = fail bad_request

  unfoldable pub revoke_unlocked :
      Server sealer.Blob → Option String → Bool → Turn → AgentState → Reply
  revoke_unlocked s target all t a =
      let (g, r) = Grants.revoke a.grants all target target t.now in
      (with_grants s a g, revoke_reply r)

  unfoldable pub handle_grant_revoke : Server sealer.Blob → Option String → Bool → Turn → Reply
  unfolding revoke_unlocked
  handle_grant_revoke s target all t = when_unlocked s t.now (revoke_unlocked s target all t)

  unfoldable pub check_unlocked :
      Server sealer.Blob → String → GrantCaller → Turn → AgentState → Reply
  check_unlocked s project caller t a =
      let (g, r) = Grants.check a.grants project caller t.now in
      (with_grants s a g, grant_checked r)

  unfoldable pub handle_grant_check : Server sealer.Blob → String → GrantCaller → Turn → Reply
  unfolding check_unlocked
  handle_grant_check s project caller t = when_unlocked s t.now (check_unlocked s project caller t)

  abbrev pub answered : String → Reply → Server sealer.Blob × Outcome
  answered id (s, body) = (s, reply (record { id = id; body = body }))

  abbrev pub answered_or_waits :
      String → Server sealer.Blob × Option AgentReply → Server sealer.Blob × Outcome
  answered_or_waits id (s, body) =
      (s, elim body [ none ↦ waits id | some b ↦ reply (record { id = id; body = b }) ])

  -- The `switch` of `handleRequest`.
  unfoldable pub dispatch :
      Server sealer.Blob → String → AgentOp → Turn → Server sealer.Blob × Outcome
  dispatch s id status t = answered id (handle_status s t)
  dispatch s id unlock t = answered_or_waits id (handle_unlock s t)
  dispatch s id (unlock_key key b) t = answered id (handle_unlock_key s key b t)
  dispatch s id lock t = answered id (handle_lock s)
  dispatch s id (vault_load b) t = answered id (handle_vault_load s b t)
  dispatch s id (vault_save vault b) t = answered id (handle_vault_save s vault b t)
  dispatch s id (grant_add project caller ttl) t =
      answered id (handle_grant_add s project caller ttl t)
  dispatch s id grant_list t = answered id (handle_grant_list s t)
  dispatch s id (grant_revoke target all) t = answered id (handle_grant_revoke s target all t)
  dispatch s id (grant_check project caller) t = answered id (handle_grant_check s project caller t)

  -- `peer` is the outcome of `authorize`: `none` for the abra CLI, or the reason of the refusal.
  unfoldable pub handle_request :
      Server sealer.Blob → Option String → AgentRequest → Turn → Server sealer.Blob × Outcome
  handle_request s none req t = dispatch s req.id req.op t
  handle_request s (some reason) req t =
      if sensitive req.op
      then answered req.id (s, failed forbidden_peer (some reason))
      else dispatch s req.id req.op t
