-- ===== src/Usb/LanClient/Scoped.antt =====
-- src/usb/lan-client.ts: the one-way sync of some projects, `scopedLanSync`.
use abracadabra.Common.{
  String, Bool, true, false, not, if◌then◌else◌, Option, List, Result, ok, err,
}
use abracadabra.Core.Vault.{Vault}
use abracadabra.Core.Scope.{ScopedMergeReport, ScopedMergeResult, merge_scoped_projects}
use abracadabra.Usb.LanClient.{
  Suite, Bundle, Network, Local, LoadError, is_locked, is_broken, LanError, unreadable_vault,
  vault_locked, not_saved,
}
use abracadabra.Usb.LanClient.Payload.{pull_projects}
use abracadabra.Usb.LanClient.Acts.{saved_vault, Act, ◌>>=◌, ◌>>◌, finish, done_if, authenticate}

pub record ScopedOutcome : Type 0 where
  pub changed : Bool
  pub report : ScopedMergeReport
  pub dry_run : Bool

module _ (suite : Suite) (net : Network (Bundle suite)) (m : Local) (pin : String) where
  -- The second try of loadVaultForScoped, after the approval.
  abbrev pub later : Result LoadError Vault → Result LanError (Vault × Bool)
  later (ok v) = ok (v, true)
  later (err is_locked) = err vault_locked
  later (err is_broken) = err unreadable_vault

  -- The vault, and whether the user has approved.
  unfoldable pub load_vault_for_scoped :
      (dry_run : Bool) → Result LoadError Vault → Act (Bundle suite) (Vault × Bool)
  load_vault_for_scoped dry_run (ok v) = finish (ok (v, false))
  load_vault_for_scoped dry_run (err is_broken) = finish (err unreadable_vault)
  load_vault_for_scoped true (err is_locked) = finish (err vault_locked)
  load_vault_for_scoped false (err is_locked) =
      if m.passphrase_file
      then (authenticate m.approves >> finish (later m.vault_later))
      else finish (err vault_locked)

  unfoldable pub approve_once : (approved : Bool) → Act (Bundle suite) (Unit {0})
  approve_once true = finish (ok tt)
  approve_once false = authenticate m.approves

  -- What is done with the merge.
  unfoldable pub save_scoped :
      (dry_run approved : Bool) → ScopedMergeResult → Act (Bundle suite) ScopedOutcome
  save_scoped true approved r =
      finish (ok (record { changed = r.changed; report = r.report; dry_run = true }))
  save_scoped false approved r =
      if not r.changed
      then finish (ok (record { changed = false; report = r.report; dry_run = false }))
      else (approve_once approved
          >> done_if m.saves not_saved (saved_vault r.merged)
          >> finish (ok (record { changed = true; report = r.report; dry_run = false })))

  unfoldable pub scoped_lan_sync :
      (fingerprint : Option String)
      → Option (List String)
      → (theirs dry_run : Bool) → Act (Bundle suite) ScopedOutcome
  scoped_lan_sync fingerprint projects theirs dry_run = do
    pulled ← finish (pull_projects suite net pin fingerprint projects)
    local ← load_vault_for_scoped dry_run m.vault
    save_scoped dry_run local.1 (merge_scoped_projects local.0 pulled.projects theirs)
