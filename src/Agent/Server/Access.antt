-- ===== src/Agent/Server/Access.antt =====
-- Who gets the vault: what each reply needs, and what a refused peer can do.
use mathlib.Core.Path.{subst}
use abracadabra.Common.{
  ℕ, ◌+◌, ◌<◌, String, str_eq, eq_iff, true, false, ◌≡◌, ◌⊎◌, refl, ap, ◌∙◌, Option, none, some,
  arith, inl, inr, Bool-cases, Option-cases, Result, ok, err, get_or,
}
use abracadabra.Common.Json.{Json}
use abracadabra.Common.Texts.{trim}
use abracadabra.Core.Envelope.{
  VaultFile, Opens, encrypt_vault, decrypt_vault, decrypt_vault-encrypt_vault,
}
use abracadabra.Agent.Buffers.{Bytes, read}
use abracadabra.Agent.State
use abracadabra.Agent.State.{AgentState}
use abracadabra.Agent.State.Invariant.{key-touch, heap-touch}
use abracadabra.Agent.Protocol.{
  AgentVaultBinding, AgentOp, status, unlock, lock, grant_list, unlock_key, vault_load, vault_save,
  grant_add, grant_revoke, grant_check, AgentRequest, sensitive,
}
use abracadabra.Agent.Wire.{
  Host, Server, Turn, AgentReply, Outcome, reply, waits, vault_loaded, vault_saved,
  check_vault_binding, with_defaults, fail, internal, decode_master_key,
}
use abracadabra.Agent.Server

-- An unlocked agent, seen at one time: its key, and that a touch takes nothing from it.
record IsOpen (a : AgentState) (now : ℕ) : Type 0 where
  place : ℕ
  key_lem : a.key ≡ some place
  kept : (State.is_locked a now).0 ≡ a
  required : State.require_key (State.touch a now) now ≡ (State.touch a now, ok place)
  heap_lem : (State.touch a now).heap ≡ a.heap
  young : 0 < a.max_age_ms → now < a.unlocked_at + a.max_age_ms

key-IsOpen :
    (a : AgentState) (now : ℕ) (o : Option ℕ)
    → a.key ≡ o
    → (State.is_locked a now).1 ≡ false
    → IsOpen a now
unfolding State.is_locked State.enforce_max_age State.lock State.touch State.arm_idle_timer
    State.require_key
key-IsOpen a now none e h = absurd (ground arith)
key-IsOpen a now (some place) e h = record {
  place = place;
  key_lem = e;
  kept = ground arith;
  required = ground arith;
  heap_lem = ground arith;
  young = ground arith;
}

module _ (host : Host) where
  open host use {sealer}

  -- The binding names the agent's own vault file and keystore.
  pub record IsBound (s : Server sealer.Blob) (b : AgentVaultBinding) : Type 0 where
    pub path : String
    pub given : b.vault_path ≡ some path
    pub same_path : host.resolve path ≡ host.resolve s.vault_path
    pub same_keystore : b.keystore_backend ≡ some s.keystore_backend

  check_vault_binding_sound :
      (s : Server sealer.Blob) (p k : Option String)
      → check_vault_binding host
          (record { vault_path = p; keystore_backend = k })
          s.vault_path
          s.keystore_backend
        ≡ none
      → IsBound s (record { vault_path = p; keystore_backend = k })
  unfolding check_vault_binding
  check_vault_binding_sound s (some p) (some k) h = record {
    path = p;
    given = refl;
    same_path = elim (Bool-cases (str_eq (trim p) "")) [
      | inl e ↦ absurd (cc (rw e at h))
      | inr e ↦ let h' = rw e at h in (eq_iff _ _).0 (ground arith)
    ];
    same_keystore = ap some ((eq_iff k s.keystore_backend).0 (ground arith));
  }
  check_vault_binding_sound s none k h = absurd (cc)
  check_vault_binding_sound s (some p) none h = absurd (ground arith)

  module _ (s : Server sealer.Blob) (b : AgentVaultBinding) (t : Turn)
      (bound : check_vault_binding host b s.vault_path s.keystore_backend ≡ none)
      (o : IsOpen s.agent t.now) where
    unlocked-eq :
        (body : AgentState → Server.Reply host)
        → (State.is_locked s.agent t.now).1 ≡ false
        → Server.when_unlocked host s t.now body ≡ body s.agent
    unlocked-eq body h = rw (h, o.kept)

    -- What `vault.load` answers on an unlocked agent.
    load_lem :
        (file : VaultFile sealer.Blob)
        → (State.is_locked s.agent t.now).1 ≡ false
        → s.disk ≡ some file
        → (Server.handle_vault_load host s b t).1
          ≡ Server.loaded host (decrypt_vault sealer file (read s.agent.heap o.place))
    unfolding Server.handle_vault_load
    load_lem file h d =
        rw (bound, unlocked-eq (Server.load_unlocked host s t) h, d, o.required, o.heap_lem)

    save_lem :
        (vault : Json)
        → (State.is_locked s.agent t.now).1 ≡ false
        → (Server.handle_vault_save host s vault b t) ≡ (
          record s {
            agent = State.touch s.agent t.now;
            disk = some (encrypt_vault sealer vault (read s.agent.heap o.place) t.iv);
          },
          vault_saved,
        )
    unfolding Server.handle_vault_save
    save_lem vault h =
        rw (bound, unlocked-eq (Server.save_unlocked host s vault t) h, o.required, o.heap_lem)

  -- A reply that carries a vault.
  abbrev pub vault_of : AgentReply → Option Json
  vault_of (vault_loaded v) = some v
  vault_of _ = none

  abbrev pub vault_in : Outcome → Option Json
  vault_in (reply r) = vault_of r.body
  vault_in (waits id) = none

  -- What stands behind a reply with the vault `v`.
  pub record IsGranted (s : Server sealer.Blob) (peer : Option String) (req : AgentRequest)
      (now : ℕ) (v : Json) : Type 0 where
    pub authorized : peer ≡ none
    pub binding : AgentVaultBinding
    pub asked : req.op ≡ vault_load binding
    pub bound : IsBound s binding
    pub place : ℕ
    pub unlocked : s.agent.key ≡ some place
    pub young : 0 < s.agent.max_age_ms → now < s.agent.unlocked_at + s.agent.max_age_ms
    pub file : VaultFile sealer.Blob
    pub stored : s.disk ≡ some file
    pub content : Json
    pub opened : decrypt_vault sealer file (read s.agent.heap place) ≡ ok content
    pub completed : with_defaults content ≡ some v

  loaded-some :
      (r : Result Server.EnvelopeError Json) (v : Json)
      → vault_of (Server.loaded host r) ≡ some v
      → (w : Json) × (r ≡ ok w) × (with_defaults w ≡ some v)
  loaded-some (err e) v h = absurd (cc)
  loaded-some (ok w) v h = (w, refl, ground arith)

  refusal_lem :
      (s : Server sealer.Blob) (b : AgentVaultBinding) (r : AgentReply)
      → check_vault_binding host b s.vault_path s.keystore_backend ≡ some r
      → vault_of r ≡ none
  unfolding check_vault_binding
  refusal_lem s b r h = ground arith

  not-loaded-refused :
      (s : Server sealer.Blob) (b : AgentVaultBinding) (t : Turn) (r : AgentReply)
      → check_vault_binding host b s.vault_path s.keystore_backend ≡ some r
      → vault_of (Server.handle_vault_load host s b t).1 ≡ none
  unfolding Server.handle_vault_load
  not-loaded-refused s b t r e = rw e (refusal_lem s b r e)

  not-loaded-locked :
      (s : Server sealer.Blob) (b : AgentVaultBinding) (t : Turn)
      → check_vault_binding host b s.vault_path s.keystore_backend ≡ none
      → (State.is_locked s.agent t.now).1 ≡ true
      → vault_of (Server.handle_vault_load host s b t).1 ≡ none
  unfolding Server.handle_vault_load
  not-loaded-locked s b t e l = rw (e, l)

  not-loaded-empty :
      (s : Server sealer.Blob) (b : AgentVaultBinding) (t : Turn)
      → check_vault_binding host b s.vault_path s.keystore_backend ≡ none
      → (State.is_locked s.agent t.now).1 ≡ false
      → s.disk ≡ none
      → vault_of (Server.handle_vault_load host s b t).1 ≡ none
  unfolding Server.handle_vault_load
  not-loaded-empty s b t e l d = rw (e, l, d)

  vault_load-IsGranted :
      (s : Server sealer.Blob) (id : String) (b : AgentVaultBinding) (t : Turn) (v : Json)
      → vault_of (Server.handle_vault_load host s b t).1 ≡ some v
      → IsGranted s none (record { id = id; op = vault_load b }) t.now v
  vault_load-IsGranted s id b t v h =
      elim (Option-cases (check_vault_binding host b s.vault_path s.keystore_backend)) [
        | inr (r, e) ↦ absurd (cc (not-loaded-refused s b t r e))
        | inl e ↦ elim (Bool-cases (State.is_locked s.agent t.now).1) [
          | inl l ↦ absurd (cc (not-loaded-locked s b t e l))
          | inr u ↦ elim (Option-cases s.disk) [
            | inl d ↦ absurd (cc (not-loaded-empty s b t e u d))
            | inr (file, d) ↦
                let o = key-IsOpen s.agent t.now s.agent.key refl u in
                let (w, op, wd) =
                  loaded-some (decrypt_vault sealer file (read s.agent.heap o.place)) v
                    (subst (λ r. vault_of r ≡ some v) (load_lem s b t e o file u d) h) in
                record {
                  authorized = refl;
                  binding = b;
                  asked = refl;
                  bound = check_vault_binding_sound s b.vault_path b.keystore_backend e;
                  place = o.place;
                  unlocked = o.key_lem;
                  young = o.young;
                  file = file;
                  stored = d;
                  content = w;
                  opened = op;
                  completed = wd;
                }
          ]
        ]
      ]

  unless_refused-silent :
      (s : Server sealer.Blob) (o : Option AgentReply) (body : Server.Reply host)
      → ((r : AgentReply) → o ≡ some r → vault_of r ≡ none)
      → vault_of body.1 ≡ none
      → vault_of (Server.unless_refused host s o body).1 ≡ none
  unless_refused-silent s none body f h = h
  unless_refused-silent s (some r) body f h = f r refl

  take_decoded-silent :
      (s : Server sealer.Blob) (o : Option Bytes) (now : ℕ)
      → vault_of (Server.take_decoded host s o now).1 ≡ none
  unfolding Server.take_key
  take_decoded-silent s none now = refl
  take_decoded-silent s (some decoded) now = ground arith

  unlock_key-silent :
      (s : Server sealer.Blob) (key : String) (b : AgentVaultBinding) (t : Turn)
      → vault_of (Server.handle_unlock_key host s key b t).1 ≡ none
  unfolding Server.handle_unlock_key
  unlock_key-silent s key b t = elim (Bool-cases (str_eq s.keystore_backend "passphrase-file")) [
    | inr e ↦ rw e
    | inl e ↦ rw e (
        unless_refused-silent s (check_vault_binding host b s.vault_path s.keystore_backend) _
          (refusal_lem s b)
          (elim (Bool-cases (str_eq (get_or b.keystore_backend "") "passphrase-file")) [
            | inr f ↦ rw f
            | inl f ↦ rw f (take_decoded-silent s (decode_master_key host key) t.now)
          ]))
  ]

  save_unlocked-silent :
      (s : Server sealer.Blob) (vault : Json) (t : Turn) (a : AgentState)
      → vault_of (Server.save_unlocked host s vault t a).1 ≡ none
  unfolding Server.save_unlocked
  save_unlocked-silent s vault t a = ground arith

  vault_save-silent :
      (s : Server sealer.Blob) (vault : Json) (b : AgentVaultBinding) (t : Turn)
      → vault_of (Server.handle_vault_save host s vault b t).1 ≡ none
  vault_save-silent s vault b t =
      unfold Server.handle_vault_save in
      unless_refused-silent s (check_vault_binding host b s.vault_path s.keystore_backend) _
        (refusal_lem s b)
        (elim (Bool-cases (State.is_locked s.agent t.now).1) [
          | inl e ↦ rw e
          | inr e ↦ rw e (save_unlocked-silent s vault t (State.is_locked s.agent t.now).0)
        ])

  -- No other operation answers with a vault.
  vault_in-dispatch :
      (s : Server sealer.Blob) (id : String) (op : AgentOp) (t : Turn) (v : Json)
      → vault_in (Server.dispatch host s id op t).1 ≡ some v
      → (b : AgentVaultBinding) × (op ≡ vault_load b)
        × (vault_of (Server.handle_vault_load host s b t).1 ≡ some v)
  unfolding Server.dispatch Server.handle_status Server.handle_lock
  vault_in-dispatch s id (vault_load b) t v h = (b, refl, h)
  vault_in-dispatch s id status t v h = absurd (cc)
  vault_in-dispatch s id lock t v h = absurd (cc)
  vault_in-dispatch s id unlock t v h = absurd (unfold Server.handle_unlock in ground arith)
  vault_in-dispatch s id (unlock_key key b) t v h = absurd (cc (unlock_key-silent s key b t))
  vault_in-dispatch s id (vault_save vault b) t v h = absurd (cc (vault_save-silent s vault b t))
  vault_in-dispatch s id (grant_add project caller ttl) t v h =
      absurd (unfold Server.handle_grant_add in ground arith)
  vault_in-dispatch s id grant_list t v h = absurd (unfold Server.handle_grant_list in ground arith)
  vault_in-dispatch s id (grant_revoke target all) t v h =
      absurd (unfold Server.handle_grant_revoke in ground arith)
  vault_in-dispatch s id (grant_check project caller) t v h =
      absurd (unfold Server.handle_grant_check in ground arith)

  IsGranted-op :
      {s : Server sealer.Blob} {req : AgentRequest} {now : ℕ} {v : Json} (id : String)
      (b : AgentVaultBinding)
      → req.op ≡ vault_load b
      → IsGranted s none (record { id = id; op = vault_load b }) now v
      → IsGranted s none req now v
  IsGranted-op id b e g = record {
    authorized = refl;
    binding = g.binding;
    asked = e ∙ g.asked;
    bound = g.bound;
    place = g.place;
    unlocked = g.unlocked;
    young = g.young;
    file = g.file;
    stored = g.stored;
    content = g.content;
    opened = g.opened;
    completed = g.completed;
  }

  -- A reply carries a vault only for a `vault.load` from the abra CLI, bound to the agent's own file
  -- and keystore, while a key is held whose max age is not over; and the vault is what that key
  -- opens from the file, with the defaults filled in.
  pub vault_in-IsGranted :
      (s : Server sealer.Blob) (peer : Option String) (req : AgentRequest) (t : Turn) (v : Json)
      → vault_in (Server.handle_request host s peer req t).1 ≡ some v
      → IsGranted s peer req t.now v
  unfolding Server.handle_request
  vault_in-IsGranted s none req t v h =
      let (b, e, l) = vault_in-dispatch s req.id req.op t v h in
      IsGranted-op req.id b e (vault_load-IsGranted s req.id b t v l)
  vault_in-IsGranted s (some reason) req t v h = absurd (silent (Bool-cases (sensitive req.op)))
    where
      silent : (sensitive req.op ≡ true) ⊎ (sensitive req.op ≡ false) → ⊥
      silent (inl e) = cc (rw e at h)
      silent (inr e) =
          let (b, e', l) = vault_in-dispatch s req.id req.op t v (rw e at h) in
          cc (e, ap sensitive e')

  -- What a request has left of the server, and that it gave no vault away.
  abbrev pub IsHarmless : Server sealer.Blob → Server sealer.Blob × Outcome → Type 0
  IsHarmless s r =
      (r.0.disk ≡ s.disk)
      × ((r.0.agent ≡ s.agent) ⊎ (r.0.agent ≡ State.lock s.agent))
      × (vault_in r.1 ≡ none)

  refused-op :
      (s : Server sealer.Blob) (reason id : String) (op : AgentOp) (t : Turn)
      → IsHarmless s (Server.handle_request host s (some reason) (record { id = id; op = op }) t)
  unfolding Server.handle_request Server.dispatch Server.handle_lock Server.handle_status
      State.status
  refused-op s reason id status t = (refl, (unfold State.enforce_max_age in ground arith), refl)
  refused-op s reason id lock t = (refl, inr refl, refl)
  refused-op s reason id _ t = (refl, inl refl, refl)

  -- A peer that is not the abra CLI can lock the agent, or find that its max age is over, and do
  -- nothing else to it: whatever it asks, the file stays as it is, the agent is left alone or
  -- locked, and no reply carries a vault.
  pub handle_request-IsHarmless :
      (s : Server sealer.Blob) (reason : String) (req : AgentRequest) (t : Turn)
      → IsHarmless s (Server.handle_request host s (some reason) req t)
  handle_request-IsHarmless s reason req t = refused-op s reason req.id req.op t

  -- The reply to a load of a vault with the defaults, or of one that takes none.
  abbrev pub answer : Option Json → AgentReply
  answer none = fail internal
  answer (some w) = vault_loaded w

  loaded-ok : (v : Json) → Server.loaded host (ok v) ≡ answer (with_defaults v)
  loaded-ok v = ground arith

  -- What `vault.save` accepts on an unlocked agent comes back from the next `vault.load` with the
  -- same binding, while the agent stays unlocked: with the defaults filled in, or as an error where
  -- the value takes none. The sealing opens what it sealed.
  pub load-save :
      (s : Server sealer.Blob) (vault : Json) (b : AgentVaultBinding) (t u : Turn)
      → Opens sealer
      → check_vault_binding host b s.vault_path s.keystore_backend ≡ none
      → (State.is_locked s.agent t.now).1 ≡ false
      → (State.is_locked (Server.handle_vault_save host s vault b t).0.agent u.now).1 ≡ false
      → ((Server.handle_vault_save host s vault b t).1 ≡ vault_saved)
        × ((Server.handle_vault_load host (Server.handle_vault_save host s vault b t).0 b u).1
            ≡ answer (with_defaults vault))
  load-save s vault b t u opens bound open1 open2 =
      let o1 = key-IsOpen s.agent t.now s.agent.key refl open1 in
      let saved = save_lem s b t bound o1 vault open1 in
      let s1 : Server sealer.Blob = record s {
        agent = State.touch s.agent t.now;
        disk = some (encrypt_vault sealer vault (read s.agent.heap o1.place) t.iv);
      } in
      let open2' : (State.is_locked s1.agent u.now).1 ≡ false = rw saved at open2 in
      let o2 = key-IsOpen s1.agent u.now s1.agent.key refl open2' in
      let same : o2.place ≡ o1.place = cc (o1.key_lem, o2.key_lem, key-touch s.agent t.now) in
      (
        ap (λ r. r.1) saved,
        rw saved (
            load_lem s1 b u bound o2 (encrypt_vault sealer vault (read s.agent.heap o1.place) t.iv)
              open2' refl
            ∙ rw (heap-touch, same, decrypt_vault-encrypt_vault sealer vault _ t.iv opens)
                (loaded-ok vault)),
      )
