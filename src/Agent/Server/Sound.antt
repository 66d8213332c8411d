-- ===== src/Agent/Server/Sound.antt =====
-- Every reachable agent is sound: the locks' timers are set, a locked agent holds no grant, and
-- the grant store is well formed.
use mathlib.Core.Path.{subst}
use abracadabra.Common.{
  ℕ, ◌≤◌, ◌==◌, String, str_eq, Bool, true, false, ◌≡◌, refl, sym, Option, none, some, arith, inl,
  inr, Bool-cases, Result, ok, err, length, not, is_some,
}
use abracadabra.Common.Json.{Json}
use abracadabra.Common.Numbers.{Number}
use abracadabra.Core.Envelope.{encrypt_vault}
use abracadabra.Agent.Buffers.{Bytes}
use abracadabra.Agent.Grants.{GrantStore, GrantCaller}
use abracadabra.Agent.Grants.Invariant.{
  IsStore, clear-IsStore, add-IsStore, list-IsStore, revoke-IsStore, check-IsStore,
}
use abracadabra.Agent.State
use abracadabra.Agent.State.{AgentState}
use abracadabra.Agent.State.Invariant.{
  IsConsistent, Fits, IsWiped, lock-IsConsistent, lock-IsWiped, touch-IsWiped,
  unlock_finish-IsWiped, unlock_finish-IsConsistent, enforce_max_age_ind, touch-IsConsistent,
  hold_lem, hold-IsConsistent,
}
use abracadabra.Agent.Protocol.{AgentVaultBinding}
use abracadabra.Agent.Wire.{Host, Server, Turn, AgentReply, vault_saved, check_vault_binding}
use abracadabra.Agent.Server

-- What is asked of the key buffers: nothing, or that all but the live one hold zeros.
abbrev pub Clean : Bool → AgentState → Type 0
Clean false a = Unit
Clean true a = IsWiped a

pub record IsSound (clean : Bool) (now : ℕ) (a : AgentState) : Type 0 where
  pub wiped : Clean clean a
  pub consistent : IsConsistent a
  pub store : IsStore a.grants
  pub past : a.unlocked_at ≤ now

pub IsSound-later :
    {clean : Bool} {a : AgentState} {now later : ℕ}
    → now ≤ later
    → IsSound clean now a
    → IsSound clean later a
IsSound-later le v = record {
  wiped = v.wiped;
  consistent = v.consistent;
  store = v.store;
  past = omega (arith, v.past);
}

Clean-lock : (clean : Bool) (a : AgentState) → Clean clean a → Clean clean (State.lock a)
Clean-lock false a c = tt
Clean-lock true a c = lock-IsWiped a c

Clean-touch :
    (clean : Bool) (a : AgentState) (now : ℕ) → Clean clean a → Clean clean (State.touch a now)
Clean-touch false a now c = tt
Clean-touch true a now c = touch-IsWiped a now c

Clean-unlock_finish :
    (clean : Bool) (a : AgentState) (key : Bytes) (now : ℕ)
    → (clean ≡ true → a.key ≡ none)
    → Clean clean a
    → Clean clean (State.unlock_finish a key now).0
Clean-unlock_finish false a key now n c = tt
Clean-unlock_finish true a key now n c = unlock_finish-IsWiped a key now (n refl) c

Clean-grants :
    (clean : Bool) (a : AgentState) (g : GrantStore)
    → Clean clean a
    → Clean clean (record a { grants = g })
Clean-grants false a g c = tt
Clean-grants true a g c = c

module _ (clean : Bool) (now : ℕ) where
  pub lock-IsSound : (a : AgentState) → Clean clean a → IsSound clean now (State.lock a)
  lock-IsSound a c = record {
    wiped = Clean-lock clean a c;
    consistent = lock-IsConsistent a;
    store = unfold State.lock in clear-IsStore a.grants;
    past = unfold State.lock in omega arith;
  }

  pub enforce-IsSound :
      (a : AgentState) → IsSound clean now a → IsSound clean now (State.enforce_max_age a now)
  enforce-IsSound a v = enforce_max_age_ind (IsSound clean now) a now v (lock-IsSound a v.wiped)

  grants-touch : (a : AgentState) → (State.touch a now).grants ≡ a.grants
  unfolding State.touch State.arm_idle_timer
  grants-touch a = ground arith

  unlocked_at-touch : (a : AgentState) → (State.touch a now).unlocked_at ≡ a.unlocked_at
  unfolding State.touch State.arm_idle_timer
  unlocked_at-touch a = ground arith

  pub touch-IsSound : (a : AgentState) → IsSound clean now a → IsSound clean now (State.touch a now)
  touch-IsSound a v = record {
    wiped = Clean-touch clean a now v.wiped;
    consistent = touch-IsConsistent a now v.past v.consistent;
    store = subst IsStore (sym (grants-touch a)) v.store;
    past = rw unlocked_at-touch v.past;
  }

  pub hold-IsSound :
      (a : AgentState) (key : Bytes)
      → length key ≡ 32
      → Clean clean (State.hold a key now)
      → IsStore a.grants
      → IsSound clean now (State.hold a key now)
  hold-IsSound a key h c st = record {
    wiped = c;
    consistent = hold-IsConsistent a key now h;
    store = rw hold_lem st;
    past = rw hold_lem (omega arith);
  }

  pub unlock_begin-IsSound :
      (a : AgentState) → IsSound clean now a → IsSound clean now (State.unlock_begin a now).0
  unfolding State.unlock_begin
  unlock_begin-IsSound a v =
      let a' = State.enforce_max_age a now in
      elim (Bool-cases (State.has_key a'.key)) [
        | inl e ↦ rw e (touch-IsSound a' (enforce-IsSound a v))
        | inr e ↦ rw e (enforce-IsSound a v)
      ]

  grants-unlock_finish :
      (a : AgentState) (key : Bytes) → (State.unlock_finish a key now).0.grants ≡ a.grants
  unfolding State.unlock_finish
  grants-unlock_finish a key = elim (Bool-cases (length key == 32)) [
    | inl e ↦ rw (e, hold_lem)
    | inr e ↦ rw e
  ]

  unlocked_at-unlock_finish :
      (a : AgentState) (key : Bytes)
      → a.unlocked_at ≤ now
      → (State.unlock_finish a key now).0.unlocked_at ≤ now
  unfolding State.unlock_finish
  unlocked_at-unlock_finish a key le = elim (Bool-cases (length key == 32)) [
    | inl e ↦ rw (e, hold_lem) (omega arith)
    | inr e ↦ rw e le
  ]

  pub unlock_finish-IsSound :
      (a : AgentState) (key : Bytes)
      → (clean ≡ true → a.key ≡ none)
      → IsSound clean now a
      → IsSound clean now (State.unlock_finish a key now).0
  unlock_finish-IsSound a key n v = record {
    wiped = Clean-unlock_finish clean a key now n v.wiped;
    consistent = unlock_finish-IsConsistent a key now v.consistent;
    store = subst IsStore (sym (grants-unlock_finish a key)) v.store;
    past = unlocked_at-unlock_finish a key v.past;
  }

  -- While a key is held, the grants may be any well-formed store.
  Fits-grants :
      (a : AgentState) (g : GrantStore) (k : ℕ)
      → Fits (some k) a
      → Fits (some k) (record a { grants = g })
  Fits-grants a g k f = f

  pub with_grants-IsSound :
      (a : AgentState) (g : GrantStore) (k : ℕ)
      → a.key ≡ some k
      → IsStore g
      → IsSound clean now a
      → IsSound clean now (record a { grants = g })
  with_grants-IsSound a g k e st v = record {
    wiped = Clean-grants clean a g v.wiped;
    consistent =
        subst (λ o. Fits o (record a { grants = g })) (sym e)
          (Fits-grants a g k (subst (λ o. Fits o a) e v.consistent));
    store = st;
    past = v.past;
  }

key-some : (o : Option ℕ) → not (State.has_key o) ≡ false → (k : ℕ) × (o ≡ some k)
key-some none h = absurd (cc)
key-some (some k) h = (k, refl)

module _ (clean : Bool) (host : Host) where
  open host use {sealer}

  abbrev pub Sound : ℕ → Server sealer.Blob → Type 0
  Sound now s = IsSound clean now s.agent

  abbrev pub Body : Type 0
  Body = AgentState → Server.Reply host

  pub when_unlocked-Sound :
      (s : Server sealer.Blob) (now : ℕ) (body : Body)
      → Sound now s
      → ((a : AgentState) (k : ℕ) → a.key ≡ some k → IsSound clean now a → Sound now (body a).0)
      → Sound now (Server.when_unlocked host s now body).0
  unfolding State.is_locked
  when_unlocked-Sound s now body v each =
      let a = State.enforce_max_age s.agent now in
      let v' = enforce-IsSound clean now s.agent v in
      elim (Bool-cases (not (State.has_key a.key))) [
        | inl e ↦ rw e v'
        | inr e ↦ let (k, e') = key-some a.key e in rw e (each a k e' v')
      ]

  pub with_key-Sound :
      (s : Server sealer.Blob) (a : AgentState) (now : ℕ)
      (use_key : Server sealer.Blob → Bytes → Server.Reply host)
      → IsSound clean now a
      → ((s' : Server sealer.Blob) (key : Bytes) → Sound now s' → Sound now (use_key s' key).0)
      → Sound now (Server.with_key host s a now use_key).0
  unfolding State.require_key
  with_key-Sound s a now use_key v each =
      let a' = State.enforce_max_age a now in go (State.key_or_throw a'.key)
    where
      go :
          (r : Result State.StateError ℕ)
          → Sound now (Server.pass_key host s (State.enforce_max_age a now) r use_key).0
      go (err e) = enforce-IsSound clean now a v
      go (ok k) = each _ _ (enforce-IsSound clean now a v)

  pub unless_refused-Sound :
      (s : Server sealer.Blob) (now : ℕ) (o : Option AgentReply) (body : Server.Reply host)
      → Sound now s
      → Sound now body.0
      → Sound now (Server.unless_refused host s o body).0
  unless_refused-Sound s now none body v w = w
  unless_refused-Sound s now (some refusal) body v w = v

  module _ (s : Server sealer.Blob) (t : Turn) (v : Sound t.now s) where
    pub vault_load-Sound :
        (b : AgentVaultBinding) → Sound t.now (Server.handle_vault_load host s b t).0
    unfolding Server.handle_vault_load
    vault_load-Sound b =
        unless_refused-Sound s t.now (check_vault_binding host b s.vault_path s.keystore_backend) _
          v
          (when_unlocked-Sound s t.now (Server.load_unlocked host s t) v (λ a k p va.
            elim (Bool-cases (is_some s.disk)) [
              | inl d ↦ rw d (
                  with_key-Sound s (State.touch a t.now) t.now
                    (λ s' key. (s', Server.load_with host s.disk key))
                    (touch-IsSound clean t.now a va) (λ s' key vs. vs))
              | inr d ↦ rw d (touch-IsSound clean t.now a va)
            ]))

    pub vault_save-Sound :
        (vault : Json) (b : AgentVaultBinding)
        → Sound t.now (Server.handle_vault_save host s vault b t).0
    unfolding Server.handle_vault_save
    vault_save-Sound vault b =
        unless_refused-Sound s t.now (check_vault_binding host b s.vault_path s.keystore_backend) _
          v
          (when_unlocked-Sound s t.now (Server.save_unlocked host s vault t) v (λ a k p va.
            with_key-Sound s (State.touch a t.now) t.now
              (λ s' key.
                (record s' { disk = some (encrypt_vault sealer vault key t.iv) }, vault_saved))
              (touch-IsSound clean t.now a va) (λ s' key vs. vs)))

    pub grant_add-Sound :
        (project : String) (caller : GrantCaller) (ttl : Number)
        → Sound t.now (Server.handle_grant_add host s project caller ttl t).0
    unfolding Server.handle_grant_add
    grant_add-Sound project caller ttl =
        when_unlocked-Sound s t.now (Server.add_unlocked host s project caller ttl t) v (λ a k p va.
          with_grants-IsSound clean t.now a _ k p
            (add-IsStore a.grants project caller ttl t.now t.grant_id va.store) va)

    pub grant_list-Sound : Sound t.now (Server.handle_grant_list host s t).0
    unfolding Server.handle_grant_list
    grant_list-Sound =
        when_unlocked-Sound s t.now (Server.list_unlocked host s t) v
          (λ a k p va. with_grants-IsSound clean t.now a _ k p (list-IsStore t.now va.store) va)

    pub grant_revoke-Sound :
        (target : Option String) (all : Bool)
        → Sound t.now (Server.handle_grant_revoke host s target all t).0
    unfolding Server.handle_grant_revoke
    grant_revoke-Sound target all =
        when_unlocked-Sound s t.now (Server.revoke_unlocked host s target all t) v (λ a k p va.
          with_grants-IsSound clean t.now a _ k p (revoke-IsStore all target target t.now va.store)
            va)

    pub grant_check-Sound :
        (project : String) (caller : GrantCaller)
        → Sound t.now (Server.handle_grant_check host s project caller t).0
    unfolding Server.handle_grant_check
    grant_check-Sound project caller =
        when_unlocked-Sound s t.now (Server.check_unlocked host s project caller t) v (λ a k p va.
          with_grants-IsSound clean t.now a _ k p (check-IsStore project caller t.now va.store) va)

    pub status-Sound : Sound t.now (Server.handle_status host s t).0
    unfolding Server.handle_status State.status
    status-Sound = enforce-IsSound clean t.now s.agent v

    pub unlock-Sound : Sound t.now (Server.handle_unlock host s t).0
    unfolding Server.handle_unlock State.is_locked
    unlock-Sound =
        let v' = enforce-IsSound clean t.now s.agent v in
        elim (Bool-cases (str_eq s.keystore_backend "passphrase-file")) [
          | inl e ↦
              elim (Bool-cases (not (State.has_key (State.enforce_max_age s.agent t.now).key))) [
                | inl f ↦ rw (e, f) v'
                | inr f ↦ rw (e, f) (unlock_begin-IsSound clean t.now _ v')
              ]
          | inr e ↦ rw e (unlock_begin-IsSound clean t.now s.agent v)
        ]
