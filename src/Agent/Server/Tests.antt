-- ===== src/Agent/Server/Tests.antt =====
-- Runs of the agent's server, and each theorem about it at a concrete input.
use abracadabra.Common.{ℕ, ◌≤◌, ◌≡◌, refl, Bool, true, false, Option, none, some, [], ◌∷◌}
use abracadabra.Common.Json.{Json, null, obj, end, member, field}
use abracadabra.Common.Texts.{trim}
use abracadabra.Core.Envelope.{Sealer, envelope, encrypt_vault, decrypt_vault}
use abracadabra.Agent.Buffers.{Bytes, read}
use abracadabra.Agent.Grants.Invariant.{IsStore}
use abracadabra.Agent.State
use abracadabra.Agent.State.{AgentState}
use abracadabra.Agent.State.Invariant.{IsConsistent, IsWiped}
use abracadabra.Agent.Protocol.{AgentVaultBinding, AgentOp, unlock, vault_load, AgentRequest}
use abracadabra.Agent.Wire.{Host, Server, Turn, vault_saved, check_vault_binding, with_defaults}
use abracadabra.Agent.Server
use abracadabra.Agent.Server.Access.{
  IsGranted, IsHarmless, answer, vault_in, vault_in-IsGranted, handle_request-IsHarmless, load-save,
}
use abracadabra.Agent.Server.Replies.{Answers, fits_op, handle_request-Answers}
use abracadabra.Agent.Server.Reach.{Step, Reach, Reach-IsSound, Reach-IsWiped}

server_run : Unit {0}
unfolding Server.handle_request Server.dispatch Server.handle_vault_load Server.handle_vault_save
    Server.unlock_resolved State.is_locked State.enforce_max_age State.touch State.arm_idle_timer
    State.require_key State.unlock_finish State.hold State.arm_max_age_timer check_vault_binding
    with_defaults encrypt_vault decrypt_vault read field trim
server_run = tt

-- A sealing that hides nothing and opens what it sealed.
abbrev plain : Sealer Json
plain = record { Blob = Json; seal = λ key iv v. v; unseal = λ key v. some v }

abbrev host : Host
host = record { sealer = plain; resolve = λ p. p; from_base64 = λ s. []; to_base64 = λ b. "" }

abbrev key32 : Bytes
key32 =
    7 ∷ 7 ∷ 7 ∷ 7 ∷ 7 ∷ 7 ∷ 7 ∷ 7 ∷ 7 ∷ 7 ∷ 7 ∷ 7 ∷ 7 ∷ 7 ∷ 7 ∷ 7 ∷ 7 ∷ 7 ∷ 7 ∷ 7 ∷ 7 ∷ 7 ∷ 7 ∷ 7
    ∷ 7 ∷ 7 ∷ 7 ∷ 7 ∷ 7 ∷ 7 ∷ 7 ∷ 7 ∷ []

abbrev fresh : Server Json
fresh = record {
  agent = State.init 900000 28800000;
  disk = some (envelope "abracadabra-vault" (obj end));
  vault_path = "/v/vault.enc";
  keystore_backend = "keytar";
}

abbrev at : ℕ → Turn
at now = record { now = now; iv = 0; grant_id = "a1"; node_path = "/n"; entry_path = "/e" }

abbrev bound : AgentVaultBinding
bound = record { vault_path = some "/v/vault.enc"; keystore_backend = some "keytar" }

abbrev ask : AgentOp → AgentRequest
ask op = record { id = "q1"; op = op }

-- Unlocked at 1000 by the answer of the keystore.
abbrev ready : Server Json
ready = (Server.unlock_resolved host fresh (some key32) 1000).0

abbrev filled : Json
filled = obj (member "connections" (obj end) (member "apiKeys" (obj end) end))

load_test :
    vault_in host (Server.handle_request host ready none (ask (vault_load bound)) (at 2000)).1
    ≡ some filled
unfolding server_run
load_test = refl

vault_in-IsGranted_example : IsGranted host ready none (ask (vault_load bound)) 2000 filled
vault_in-IsGranted_example =
    vault_in-IsGranted host ready none (ask (vault_load bound)) (at 2000) filled load_test

handle_request-IsHarmless_example :
    IsHarmless host ready
      (Server.handle_request host ready (some "exe_mismatch") (ask (vault_load bound)) (at 2000))
handle_request-IsHarmless_example =
    handle_request-IsHarmless host ready "exe_mismatch" (ask (vault_load bound)) (at 2000)

ready_unlocked : (State.is_locked ready.agent 2000).1 ≡ false
unfolding server_run
ready_unlocked = refl

saved_unlocked :
    (vault : Json)
    → (State.is_locked (Server.handle_vault_save host ready vault bound (at 2000)).0.agent 3000).1
      ≡ false
unfolding server_run
saved_unlocked vault = refl

bound_fits : check_vault_binding host bound ready.vault_path ready.keystore_backend ≡ none
unfolding server_run
bound_fits = refl

load-save_example :
    ((Server.handle_vault_save host ready (obj end) bound (at 2000)).1 ≡ vault_saved)
    × ((Server.handle_vault_load host
          (Server.handle_vault_save host ready (obj end) bound (at 2000)).0
          bound
          (at 3000)).1
        ≡ answer host (with_defaults (obj end)))
load-save_example =
    load-save host ready (obj end) bound (at 2000) (at 3000) (λ key iv v. refl) bound_fits
      ready_unlocked (saved_unlocked (obj end))

-- `null` passes `isAgentRequest`, is saved, and cannot be loaded again.
null_defaults : with_defaults null ≡ none
unfolding server_run
null_defaults = refl

ready-Reach : (clean : Bool) → Reach clean host 1000 ready
ready-Reach clean =
    Reach.takes (Reach.starts 1000 900000 28800000 fresh.disk "/v/vault.enc" "keytar")
      (Step.resolves (some key32) (λ e. refl))

Reach-IsSound_example :
    IsConsistent ready.agent × IsStore ready.agent.grants × (ready.agent.unlocked_at ≤ 1000)
Reach-IsSound_example = Reach-IsSound {host = host} (ready-Reach false)

Reach-IsWiped_example : IsWiped ready.agent
Reach-IsWiped_example = Reach-IsWiped {host = host} (ready-Reach true)

handle_request-Answers_example :
    Answers
      (ask (vault_load bound))
      (Server.handle_request host ready none (ask (vault_load bound)) (at 2000)).1
    × ((later : Server Json) (key : Option Bytes) (now : ℕ)
        → fits_op unlock (Server.unlock_resolved host later key now).1 ≡ true)
handle_request-Answers_example =
    handle_request-Answers host ready none (ask (vault_load bound)) (at 2000)
