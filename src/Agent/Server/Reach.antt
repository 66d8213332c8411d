-- ===== src/Agent/Server/Reach.antt =====
-- The agent over time: requests in any order, the keystore's answers, the timers, sleep, and
-- other processes that write the vault file.
use mathlib.Core.Path.{subst}
use abracadabra.Common.{
  ℕ, ◌≤◌, String, str_eq, Bool, true, false, ◌≡◌, refl, sym, ap, Option, none, some, arith, inl,
  inr, Bool-cases, get_or,
}
use abracadabra.Core.Envelope.{VaultFile}
use abracadabra.Agent.Buffers.{Bytes}
use abracadabra.Agent.Grants
use abracadabra.Agent.Grants.{GrantStore}
use abracadabra.Agent.Grants.Invariant.{IsStore, empty_store-IsStore, prune_timer_fires-IsStore}
use abracadabra.Agent.State
use abracadabra.Agent.State.{AgentState}
use abracadabra.Agent.State.Invariant.{IsConsistent, init-IsConsistent, init-IsWiped, Fits, IsWiped}
use abracadabra.Agent.Protocol.{
  AgentVaultBinding, AgentOp, status, unlock, lock, grant_list, unlock_key, vault_load, vault_save,
  grant_add, grant_revoke, grant_check, AgentRequest, sensitive,
}
use abracadabra.Agent.Wire.{Host, Server, Turn, check_vault_binding, decode_master_key}
use abracadabra.Agent.Server
use abracadabra.Agent.Server.Sound.{
  Clean, IsSound-later, Sound, lock-IsSound, with_grants-IsSound, unlock_finish-IsSound,
  unless_refused-Sound, status-Sound, unlock-Sound, vault_load-Sound, vault_save-Sound,
  grant_add-Sound, grant_list-Sound, grant_revoke-Sound, grant_check-Sound,
}
use abracadabra.Agent.Server.TakeKey.{take_key-Sound}

module _ (clean : Bool) (host : Host) where
  open host use {sealer}

  take_decoded-Sound :
      (s : Server sealer.Blob) (now : ℕ) (o : Option Bytes)
      → Sound clean host now s
      → Sound clean host now (Server.take_decoded host s o now).0
  take_decoded-Sound s now none v = v
  take_decoded-Sound s now (some b) v = take_key-Sound host s now b clean v

  unlock_key-Sound :
      (s : Server sealer.Blob) (key : String) (b : AgentVaultBinding) (t : Turn)
      → Sound clean host t.now s
      → Sound clean host t.now (Server.handle_unlock_key host s key b t).0
  unfolding Server.handle_unlock_key
  unlock_key-Sound s key b t v = elim (Bool-cases (str_eq s.keystore_backend "passphrase-file")) [
    | inr e ↦ rw e v
    | inl e ↦ rw e (
        unless_refused-Sound clean host s t.now
          (check_vault_binding host b s.vault_path s.keystore_backend) _ v
          (elim (Bool-cases (str_eq (get_or b.keystore_backend "") "passphrase-file")) [
            | inr f ↦ rw f v
            | inl f ↦ rw f (take_decoded-Sound s t.now (decode_master_key host key) v)
          ]))
  ]

  dispatch-Sound :
      (s : Server sealer.Blob) (id : String) (op : AgentOp) (t : Turn)
      → Sound clean host t.now s
      → Sound clean host t.now (Server.dispatch host s id op t).0
  unfolding Server.dispatch Server.handle_lock
  dispatch-Sound s id status t v = status-Sound clean host s t v
  dispatch-Sound s id unlock t v = unlock-Sound clean host s t v
  dispatch-Sound s id (unlock_key key b) t v = unlock_key-Sound s key b t v
  dispatch-Sound s id lock t v = lock-IsSound clean t.now s.agent v.wiped
  dispatch-Sound s id (vault_load b) t v = vault_load-Sound clean host s t v b
  dispatch-Sound s id (vault_save vault b) t v = vault_save-Sound clean host s t v vault b
  dispatch-Sound s id (grant_add project caller ttl) t v =
      grant_add-Sound clean host s t v project caller ttl
  dispatch-Sound s id grant_list t v = grant_list-Sound clean host s t v
  dispatch-Sound s id (grant_revoke target all) t v = grant_revoke-Sound clean host s t v target all
  dispatch-Sound s id (grant_check project caller) t v =
      grant_check-Sound clean host s t v project caller

  handle_request-Sound :
      (s : Server sealer.Blob) (peer : Option String) (req : AgentRequest) (t : Turn)
      → Sound clean host t.now s
      → Sound clean host t.now (Server.handle_request host s peer req t).0
  unfolding Server.handle_request
  handle_request-Sound s none req t v = dispatch-Sound s req.id req.op t v
  handle_request-Sound s (some reason) req t v = elim (Bool-cases (sensitive req.op)) [
    | inl e ↦ rw e v
    | inr e ↦ rw e (dispatch-Sound s req.id req.op t v)
  ]

  resolved-Sound :
      (s : Server sealer.Blob) (answer : Option Bytes) (now : ℕ)
      → (clean ≡ true → s.agent.key ≡ none)
      → Sound clean host now s
      → Sound clean host now (Server.unlock_resolved host s answer now).0
  unfolding Server.unlock_resolved
  resolved-Sound s none now n v = v
  resolved-Sound s (some key) now n v = unlock_finish-IsSound clean now s.agent key n v

  -- A locked agent has no prune timer, so a timer that fires finds a key.
  prune-Sound :
      (s : Server sealer.Blob) (now at : ℕ)
      → s.agent.grants.prune_timer ≡ some at
      → Sound clean host now s
      → Sound clean host now
          (Server.with_grants host s s.agent (Grants.prune_timer_fires s.agent.grants now))
  prune-Sound s now at armed v = go s.agent.key refl v.consistent
    where
      go :
          (o : Option ℕ)
          → s.agent.key ≡ o
          → Fits o s.agent
          → Sound clean host now
              (Server.with_grants host s s.agent (Grants.prune_timer_fires s.agent.grants now))
      go none e f = absurd (cc (armed, ap (λ (g : GrantStore). g.prune_timer) f.2))
      go (some k) e f =
          with_grants-IsSound clean now s.agent _ k e (prune_timer_fires-IsStore now v.store) v

-- One step at a time. Under `clean` the keystore answers no `unlock` while a key is held.
pub data Step (clean : Bool) (host : Host) (now : ℕ) (s : Server host.sealer.Blob)
    : Server host.sealer.Blob → Type 1 where
  handles :
      (peer : Option String) (req : AgentRequest) (t : Turn)
      → t.now ≡ now
      → Step clean host now s (Server.handle_request host s peer req t).0
  resolves :
      (answer : Option Bytes)
      → (clean ≡ true → s.agent.key ≡ none)
      → Step clean host now s (Server.unlock_resolved host s answer now).0
  idle_fires :
      (at : ℕ)
      → s.agent.idle_timer ≡ some at
      → at ≤ now
      → Step clean host now s (Server.with_agent host s (State.timer_fires s.agent))
  max_age_fires :
      (at : ℕ)
      → s.agent.max_age_timer ≡ some at
      → at ≤ now
      → Step clean host now s (Server.with_agent host s (State.timer_fires s.agent))
  prune_fires :
      (at : ℕ)
      → s.agent.grants.prune_timer ≡ some at
      → at ≤ now
      → Step clean host now s
          (Server.with_grants host s s.agent (Grants.prune_timer_fires s.agent.grants now))
  sleeps : Step clean host now s (Server.with_agent host s (State.lock s.agent))
  file_changes :
      (disk : Option (VaultFile host.sealer.Blob))
      → Step clean host now s (record s { disk = disk })

-- The servers that an agent comes to, with the time.
pub data Reach (clean : Bool) (host : Host) : ℕ → Server host.sealer.Blob → Type 1 where
  starts :
      (now idle_ms max_age_ms : ℕ) (disk : Option (VaultFile host.sealer.Blob))
      (vault_path keystore_backend : String)
      → Reach clean host now (record {
        agent = State.init idle_ms max_age_ms;
        disk = disk;
        vault_path = vault_path;
        keystore_backend = keystore_backend;
      })
  passes :
      {now : ℕ} {s : Server host.sealer.Blob} (later : ℕ)
      → now ≤ later
      → Reach clean host now s
      → Reach clean host later s
  takes :
      {now : ℕ} {s u : Server host.sealer.Blob}
      → Reach clean host now s
      → Step clean host now s u
      → Reach clean host now u

Clean-init : (clean : Bool) (idle max : ℕ) → Clean clean (State.init idle max)
Clean-init false idle max = tt
Clean-init true idle max = init-IsWiped idle max

Step-Sound :
    {clean : Bool} {host : Host} {now : ℕ} {s u : Server host.sealer.Blob}
    → Step clean host now s u
    → Sound clean host now s
    → Sound clean host now u
unfolding State.timer_fires
Step-Sound {clean} {host} {now} {s} (handles peer req t e) v =
    subst (λ n. Sound clean host n (Server.handle_request host s peer req t).0) e
      (handle_request-Sound clean host s peer req t (subst (λ n. Sound clean host n s) (sym e) v))
Step-Sound {clean} {host} {now} {s} (resolves answer n) v =
    resolved-Sound clean host s answer now n v
Step-Sound {clean} {host} {now} {s} (idle_fires at armed due) v =
    lock-IsSound clean now s.agent v.wiped
Step-Sound {clean} {host} {now} {s} (max_age_fires at armed due) v =
    lock-IsSound clean now s.agent v.wiped
Step-Sound {clean} {host} {now} {s} (prune_fires at armed due) v =
    prune-Sound clean host s now at armed v
Step-Sound {clean} {host} {now} {s} sleeps v = lock-IsSound clean now s.agent v.wiped
Step-Sound (file_changes disk) v = v

Reach-Sound :
    {clean : Bool} {host : Host} {now : ℕ} {s : Server host.sealer.Blob}
    → Reach clean host now s
    → Sound clean host now s
Reach-Sound {clean} (starts now idle max disk vault_path keystore_backend) = record {
  wiped = Clean-init clean idle max;
  consistent = init-IsConsistent idle max;
  store = empty_store-IsStore;
  past = omega arith;
}
Reach-Sound (passes later le r) = IsSound-later le (Reach-Sound r)
Reach-Sound (takes r st) = Step-Sound st (Reach-Sound r)

-- In every state that an agent comes to, whatever the order of requests, answers of the keystore,
-- timers, sleeps and writes of other processes: locked, it runs no timer and holds no grant;
-- unlocked, its key is a live buffer of 32 bytes, and the timer of each lock that is switched on
-- is set from the last activity or the unlock; and its grant store is well formed.
pub Reach-IsSound :
    {host : Host} {now : ℕ} {s : Server host.sealer.Blob}
    → Reach false host now s
    → IsConsistent s.agent × IsStore s.agent.grants × (s.agent.unlocked_at ≤ now)
Reach-IsSound r = let v = Reach-Sound r in (v.consistent, v.store, v.past)

-- In every state that an agent comes to while the keystore never answers an `unlock` when a key is
-- already held, every key buffer that the agent itself has allocated, which are its copies and the
-- decoded keys of `unlock.key`, holds zeros, but the live key's. The buffers that resolveMasterKey
-- has allocated and handed to `unlock` are not among them.
pub Reach-IsWiped :
    {host : Host} {now : ℕ} {s : Server host.sealer.Blob} → Reach true host now s → IsWiped s.agent
Reach-IsWiped r = (Reach-Sound r).wiped
