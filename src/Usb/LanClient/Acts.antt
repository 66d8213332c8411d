-- ===== src/Usb/LanClient/Acts.antt =====
-- src/usb/lan-client.ts: what a sync does to the machine and the host, in order. An act logs what it
-- has done, and ends with a result.
use abracadabra.Common.{
  Bool, true, false, ◌&&◌, String, if◌then◌else◌, Option, none, some, List, [], ◌∷◌, ◌++◌, Result,
  ok, err,
}
use abracadabra.Core.Vault.{Vault}
use abracadabra.Core.Backup.{Bytes, seal_bundle}
use abracadabra.Core.Backup.Export.{encrypt_vault_for_export}
use abracadabra.Core.Sync.Report.{ReportLine}
use abracadabra.Usb.LanClient.{
  Suite, Bundle, Network, Local, LanError, not_approved, not_saved, no_master_key, push_bundle,
  Force, Plan, is_empty, plan_lan_sync,
}

pub data Did (B : Type 0) : Type 0 where
  asked_approval : Did B
  saved_vault : Vault → Did B
  -- the bundle is on its way, whatever the host answers
  pushed_bundle : B → Did B
  saved_state : Option String → Vault → Did B

abbrev pub Act : Type 0 → Type 0 → Type 0
Act B A = List (Did B) × Result LanError A

infixl 5 ◌>>=◌ ◌>>◌
abbrev pub ◌>>=◌ : {B A C : Type 0} → Act B A → (A → Act B C) → Act B C
(ds, err e) >>= next = (ds, err e)
(ds, ok a) >>= next = (ds ++ (next a).0, (next a).1)

abbrev pub ◌>>◌ : {B C : Type 0} → Act B (Unit {0}) → Act B C → Act B C
first >> rest = first >>= λ nothing. rest

abbrev pub finish : {B A : Type 0} → Result LanError A → Act B A
finish r = ([], r)

-- A step that throws unless `b`.
abbrev pub done_if : {B : Type 0} → Bool → LanError → Did B → Act B (Unit {0})
done_if true e d = (d ∷ [], ok tt)
done_if false e d = ([], err e)

-- The user is asked, and refuses or agrees.
abbrev pub authenticate : {B : Type 0} → (approves : Bool) → Act B (Unit {0})
authenticate true = (asked_approval ∷ [], ok tt)
authenticate false = (asked_approval ∷ [], err not_approved)

pub record SyncOutcome : Type 0 where
  pub changed : Bool
  pub report : List ReportLine

module _ (suite : Suite) (net : Network (Bundle suite)) (m : Local) (pin : String) where
  open suite use {vaults, bundles, scrypt, nfkc}

  abbrev pub master_key_of : Option Bytes → Act (Bundle suite) Bytes
  master_key_of none = finish (err no_master_key)
  master_key_of (some key) = finish (ok key)

  -- `sealBundle(encryptVaultForExport(vault, masterKey), masterKey, pin)`
  unfoldable pub sealed : Vault → Bytes → Bundle suite
  sealed vault key =
      seal_bundle bundles scrypt nfkc (encrypt_vault_for_export vaults vault key m.sealing.iv) key
        pin (record { n = none; r = none; p = none; key_len = none }) none none m.sealing

  unfoldable pub push_vault : (fingerprint : String) → Vault → Act (Bundle suite) (Unit {0})
  push_vault fp vault = do
    key ← master_key_of m.master_key
    (pushed_bundle (sealed vault key) ∷ [], push_bundle net fp pin (sealed vault key))

  -- A sync without a report: our vault is the base, and goes to the host.
  unfoldable pub keep_local : Plan → Act (Bundle suite) SyncOutcome
  keep_local plan = do
    done_if m.saves_state not_saved (saved_state plan.peer_id plan.local)
    push_vault plan.fingerprint plan.local
    finish (ok (record { changed = false; report = [] }))

  unfoldable pub write_merge : Plan → Act (Bundle suite) SyncOutcome
  write_merge plan = do
    done_if m.saves not_saved (saved_vault plan.merge.merged)
    push_vault plan.fingerprint plan.merge.merged
    done_if m.saves_state not_saved (saved_state plan.peer_id plan.merge.merged)
    finish (ok (record { changed = true; report = plan.report }))

  abbrev pub changes_nothing : Plan → Bool
  changes_nothing plan = is_empty plan.report && is_empty plan.merge.project_deletions

  -- `applyLanSync` from the approval on.
  unfoldable pub carry_out : Plan → Act (Bundle suite) SyncOutcome
  carry_out plan = do
    authenticate m.approves
    if changes_nothing plan then keep_local plan else write_merge plan

  unfoldable pub apply_lan_sync :
      Option Force
      → (fingerprint : Option String) → (allow_deletes : Bool) → Act (Bundle suite) SyncOutcome
  apply_lan_sync force fingerprint allow_deletes = do
    plan ← finish (plan_lan_sync suite net m pin force fingerprint allow_deletes)
    carry_out plan
