-- ===== src/Usb/LanClient.antt =====
-- src/usb/lan-client.ts: the sync with a host of the local network, up to the point where it acts. The
-- requests over the pinned connection are a parameter, `Network`, and so is what the machine answers,
-- `Local`; the address of the host is a part of the network. The browsing is left out.
pub mod Acts
pub mod Payload
pub mod Scoped
pub mod Safety
pub mod Agreement
pub mod Outcome
pub mod Unreported
pub mod Untouched
pub mod OneWay
mod Tests
use abracadabra.Common.{
  ℕ, ◌==◌, String, str_eq, Bool, true, false, ◌||◌, not, if◌then◌else◌, Option, none, some, is_some,
  List, [], ◌∷◌, Result, ok, err, or_fail, require, ◌>>=◌, ◌>>◌,
}
use abracadabra.Common.Maps
use abracadabra.Common.Texts.{trim}
use abracadabra.Core.Vault.{Vault}
use abracadabra.Core.Envelope.{Sealer, EnvelopeError}
use abracadabra.Core.Backup.{
  Bytes, BundlePayload, BackupBundle, KdfParams, BackupError, scoped_bundle, Sealing, open_bundle,
}
use abracadabra.Core.Backup.Export.{VaultEnvelope, decrypt_envelope}
use abracadabra.Core.Scope.{ScopeError}
use abracadabra.Core.Sync.{Conflict, Resolutions, ProjectDeletion, resolution_key}
use abracadabra.Core.Sync.Whole.{Merge, three_way_merge}
use abracadabra.Core.Sync.Report.{ReportLine, was_deleted, merge_report}
use abracadabra.Core.Sync.Bases.{SyncFile, load_sync_state, lan_peer_id}
use abracadabra.Usb.LanHost.{requested}

-- The third-party code that seals, and what Node gives.
pub record Suite : Type 1 where
  pub vaults : Sealer Vault
  pub bundles : Sealer (BundlePayload (VaultEnvelope vaults.Blob))
  pub scrypt : String → KdfParams → Bytes
  pub nfkc : String → String

abbrev pub Bundle : Suite → Type 0
Bundle s = BackupBundle s.bundles.Blob

-- What comes of a request: no answer, or a status and the bundle of the body.
pub data Response (B : Type 0) : Type 0 where
  no_answer : Response B
  answered : (status : ℕ) → Option B → Response B

pub record Network (B : Type 0) : Type 0 where
  pub pull : (fingerprint pin : String) → (projects : Option (List String)) → Response B
  pub push : (fingerprint pin : String) → B → Response B

pub data LoadError : Type 0 where
  is_locked is_broken : LoadError

-- What the machine answers in the run: loadVault before and after an approval, the file of the
-- bases, the user, whether saveVault and saveSyncState write, the master key, whether the keystore
-- is a file under a passphrase, and what a bundle takes from it.
pub record Local : Type 0 where
  pub vault : Result LoadError Vault
  pub vault_later : Result LoadError Vault
  pub bases : SyncFile
  pub approves : Bool
  pub saves : Bool
  pub saves_state : Bool
  pub master_key : Option Bytes
  pub passphrase_file : Bool
  pub sealing : Sealing

pub data LanError : Type 0 where
  fingerprint_required unreachable invalid_pin no_bundle wrong_pin scoped_host : LanError
  unreadable_vault vault_locked not_approved not_saved no_master_key : LanError
  pull_failed push_failed : ℕ → LanError
  conflicting : List Conflict → LanError
  would_delete : List ProjectDeletion → LanError
  bad_scope refused_payload : ScopeError → LanError
  no_scoped_sync full_host : LanError
  unrequested : List String → LanError

unfoldable pub require_fingerprint : Option String → Result LanError String
require_fingerprint none = err fingerprint_required
require_fingerprint (some fp) =
    if str_eq (trim fp) "" then err fingerprint_required else ok (trim fp)

-- What the status and the body of an answer to a pull come to.
unfoldable pub bundle_of : {B : Type 0} → Response B → Result LanError B
bundle_of no_answer = err unreachable
bundle_of (answered status bundle) = do
  require (not (status == 401)) invalid_pin
  require (status == 200) (pull_failed status)
  or_fail bundle no_bundle

unfoldable pub pull_bundle :
    {B : Type 0} → Network B → (fingerprint pin : String) → Option (List String) → Result LanError B
unfolding bundle_of
pull_bundle net fp pin projects = bundle_of (net.pull fp pin (requested projects))

unfoldable pub push_bundle :
    {B : Type 0} → Network B → (fingerprint pin : String) → B → Result LanError (Unit {0})
push_bundle net fp pin bundle = elim (net.push fp pin bundle) [
  | no_answer ↦ err unreachable
  | answered status body ↦ do
    require (not (status == 401)) invalid_pin
    require (status == 200) (push_failed status)
]

pub record Remote : Type 0 where
  pub vault : Vault
  pub device_id : Option String

-- What openRemotePayload throws where openBundle does.
abbrev pub open_error : BackupError → LanError
open_error scoped_bundle = scoped_host
open_error _ = wrong_pin

abbrev pub remote_of : Option String → Result EnvelopeError Vault → Result LanError Remote
remote_of device_id (err e) = err unreadable_vault
remote_of device_id (ok v) = ok (record { vault = v; device_id = device_id })

module _ (suite : Suite) where
  open suite use {vaults, bundles, scrypt, nfkc}

  abbrev pub opened_vault : BundlePayload (VaultEnvelope vaults.Blob) → Result LanError Remote
  opened_vault payload = do
    env ← or_fail payload.vault_enc unreadable_vault
    key ← or_fail payload.master_key unreadable_vault
    remote_of payload.meta.device_id (decrypt_envelope vaults env key)

  unfoldable pub open_remote_payload : Bundle suite → (pin : String) → Result LanError Remote
  open_remote_payload bundle pin = elim (open_bundle bundles scrypt nfkc bundle pin) [
    | err e ↦ err (open_error e)
    | ok payload ↦ opened_vault payload
  ]

-- What a failed loadVault comes to here.
abbrev pub loaded : Result LoadError Vault → Result LanError Vault
loaded (ok v) = ok v
loaded (err is_locked) = err vault_locked
loaded (err is_broken) = err unreadable_vault

-- `(await loadSyncState(peerId))?.base ?? null`
abbrev pub base_of : SyncFile → Option String → Option Vault
base_of file peer_id = elim (load_sync_state file peer_id) [
  | none ↦ none
  | some state ↦ some state.base
]

pub data Force : Type 0 where
  ours theirs : Force

-- The loop that settles each conflict by the side that is forced.
unfoldable pub settle : Force → List Conflict → Resolutions → Resolutions
settle force [] resolutions = resolutions
settle ours (c ∷ cs) resolutions =
    settle ours cs (Maps.set (resolution_key c.scope c.key) c.ours resolutions)
settle theirs (c ∷ cs) resolutions =
    settle theirs cs (Maps.set (resolution_key c.scope c.key) c.theirs resolutions)

unfoldable pub forced : Option Force → (local remote : Vault) → Option Vault → Resolutions
unfolding settle
forced none local remote base = []
forced (some force) local remote base =
    settle force (three_way_merge local remote base []).conflicts []

-- What a sync has found out before it acts.
pub record Plan : Type 0 where
  pub fingerprint : String
  pub peer_id : Option String
  pub local : Vault
  pub merge : Merge
  pub report : List ReportLine

abbrev pub is_empty {ℓ} : {A : Type ℓ} → List A → Bool
is_empty [] = true
is_empty (x ∷ xs) = false

abbrev pub plan_of : (fingerprint : String) → Local → Vault → Remote → Option Force → Plan
plan_of fp m local remote force =
    let peer_id = lan_peer_id remote.device_id in
    let base = base_of m.bases peer_id in
    let resolutions = forced force local remote.vault base in
    record {
      fingerprint = fp;
      peer_id = peer_id;
      local = local;
      merge = three_way_merge local remote.vault base resolutions;
      report = merge_report local remote.vault base resolutions;
    }

-- The deletions are shown before the other lines.
pub record LanSyncPreview : Type 0 where
  pub project_deletions : List ProjectDeletion
  pub report : List ReportLine
  pub conflicts : List Conflict
  pub needs_resolution : Bool

abbrev without_deletions : List ReportLine → List ReportLine
without_deletions [] = []
without_deletions (was_deleted name side ∷ lines) = without_deletions lines
without_deletions (line ∷ lines) = line ∷ without_deletions lines

unfoldable pub preview_of : Plan → LanSyncPreview
preview_of plan = record {
  project_deletions = plan.merge.project_deletions;
  report = without_deletions plan.report;
  conflicts = plan.merge.conflicts;
  needs_resolution = not (is_empty plan.merge.conflicts);
}

module _ (suite : Suite) (net : Network (Bundle suite)) (m : Local) (pin : String) where
  -- `applyLanSync`, up to the approval.
  unfoldable pub plan_lan_sync :
      Option Force → (fingerprint : Option String) → (allow_deletes : Bool) → Result LanError Plan
  plan_lan_sync force fingerprint allow_deletes = do
    fp ← require_fingerprint fingerprint
    bundle ← pull_bundle net fp pin none
    remote ← open_remote_payload suite bundle pin
    local ← loaded m.vault
    let plan = plan_of fp m local remote force
    require (is_empty plan.merge.conflicts || is_some force) (conflicting plan.merge.conflicts)
    require (is_empty plan.merge.project_deletions || allow_deletes)
        (would_delete plan.merge.project_deletions)
    ok plan

  -- `previewLanSync`, which reads and does nothing else.
  unfoldable pub preview_lan_sync : (fingerprint : Option String) → Result LanError LanSyncPreview
  preview_lan_sync fingerprint = do
    fp ← require_fingerprint fingerprint
    bundle ← pull_bundle net fp pin none
    remote ← open_remote_payload suite bundle pin
    local ← loaded m.vault
    ok (preview_of (plan_of fp m local remote none))
