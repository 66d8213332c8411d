-- ===== src/Core/Backup.antt =====
-- src/core/backup.ts: the sealed bundles. scrypt and NFKC are parameters, and AES-256-GCM with
-- JSON.stringify and JSON.parse is a `Sealer`; a text in base64 is the bytes that it stands for. A
-- payload has the members that the code reads of it, each `none` where the object lacks it.
pub mod Seals
pub mod Export
mod Tests
use abracadabra.Common.{
  ℕ, String, str_eq, Bool, true, false, not, if◌then◌else◌, Option, none, some, get_or, List,
  Result, ok, err, or_fail, require, ◌>>=◌, ◌>>◌,
}
use abracadabra.Common.Json.{truthy}
use abracadabra.Common.Maps.{Map}
use abracadabra.Core.Vault.{Project}
use abracadabra.Core.Envelope.{Sealer}

abbrev pub Bytes : Type 0
Bytes = List ℕ

pub record BundleMeta : Type 0 where
  pub created_at : ℕ
  pub hostname : String
  pub device_id : Option String
  pub lineage_id : Option String

pub record KdfParams : Type 0 where
  pub algo : String
  pub salt : Bytes
  pub n : ℕ
  pub r : ℕ
  pub p : ℕ
  pub key_len : ℕ

-- `vault_enc` is the envelope of a vault, an `E`.
pub record BundlePayload (E : Type 0) : Type 0 where
  pub kind : Option String
  pub vault_enc : Option E
  pub master_key : Option Bytes
  pub scope : Option (List String)
  pub projects : Option (Map Project)
  pub meta : BundleMeta

-- `sealed` is the `iv`, the `tag` and the `data`.
pub record BackupBundle (C : Type 0) : Type 0 where
  pub format : String
  pub meta : BundleMeta
  pub kind : Option String
  pub kdf : KdfParams
  pub sealed : C

pub record KdfOptions : Type 0 where
  pub n : Option ℕ
  pub r : Option ℕ
  pub p : Option ℕ
  pub key_len : Option ℕ

-- What the machine gives to a bundle: the clock, its name and id, and random bytes.
pub record Sealing : Type 0 where
  pub now : ℕ
  pub hostname : String
  pub device_id : String
  pub salt : Bytes
  pub iv : ℕ

pub data BackupError : Type 0 where
  unrecognized unsupported_kdf unauthentic scoped_bundle : BackupError

pub data Opened (E : Type 0) : Type 0 where
  full scoped : BundlePayload E → Opened E

abbrev pub backup_magic : String
backup_magic = "abracadabra-backup"

abbrev pub scoped_kind : String
scoped_kind = "scoped-projects"

unfoldable pub is_scoped_payload : {E : Type 0} → BundlePayload E → Bool
is_scoped_payload payload = elim payload.kind [ none ↦ false | some k ↦ str_eq k scoped_kind ]

abbrev pub kdf_of : Sealing → KdfOptions → KdfParams
kdf_of m opts = record {
  algo = "scrypt";
  salt = m.salt;
  n = get_or opts.n 16384;
  r = get_or opts.r 8;
  p = get_or opts.p 1;
  key_len = get_or opts.key_len 32;
}

-- An empty lineage is none.
abbrev pub full_payload :
    {E : Type 0} (vault_enc : E) (master_key : Bytes) (device_id lineage_id : Option String)
    → Sealing
    → BundlePayload E
full_payload vault_enc master_key device_id lineage_id m = record {
  kind = none;
  vault_enc = some vault_enc;
  master_key = some master_key;
  scope = none;
  projects = none;
  meta = record {
    created_at = m.now;
    hostname = m.hostname;
    device_id = some (get_or device_id m.device_id);
    lineage_id = truthy lineage_id;
  };
}

abbrev pub scoped_payload :
    {E : Type 0} → Map Project → (scope : List String) → Sealing → BundlePayload E
scoped_payload projects scope m = record {
  kind = some scoped_kind;
  vault_enc = none;
  master_key = none;
  scope = some scope;
  projects = some projects;
  meta = record {
    created_at = m.now;
    hostname = m.hostname;
    device_id = some m.device_id;
    lineage_id = none;
  };
}

module _ {E : Type 0} (sealer : Sealer (BundlePayload E)) (scrypt : String → KdfParams → Bytes)
    (nfkc : String → String) where
  unfoldable pub derive_key : (passphrase : String) → KdfParams → Result BackupError Bytes
  derive_key passphrase kdf =
      if not (str_eq kdf.algo "scrypt")
      then err unsupported_kdf
      else ok (scrypt (nfkc passphrase) kdf)

  unfoldable pub seal_payload :
      BundlePayload E
      → (passphrase : String) → KdfOptions
      → (kind : Option String) → Sealing
      → BackupBundle sealer.Blob
  seal_payload payload passphrase opts kind m = record {
    format = backup_magic;
    meta = payload.meta;
    kind = kind;
    kdf = kdf_of m opts;
    sealed = sealer.seal (scrypt (nfkc passphrase) (kdf_of m opts)) m.iv payload;
  }

  unfoldable pub decrypt_payload :
      BackupBundle sealer.Blob → (passphrase : String) → Result BackupError (BundlePayload E)
  decrypt_payload bundle passphrase = do
    require (str_eq bundle.format backup_magic) unrecognized
    key ← derive_key passphrase bundle.kdf
    or_fail (sealer.unseal key bundle.sealed) unauthentic

  unfoldable pub seal_bundle :
      (vault_enc : E) (master_key : Bytes) (passphrase : String)
      → KdfOptions
      → (device_id lineage_id : Option String) → Sealing
      → BackupBundle sealer.Blob
  seal_bundle vault_enc master_key passphrase opts device_id lineage_id m =
      seal_payload (full_payload vault_enc master_key device_id lineage_id m) passphrase opts none m

  unfoldable pub seal_scoped_bundle :
      Map Project
      → (scope : List String) (passphrase : String) → KdfOptions
      → Sealing
      → BackupBundle sealer.Blob
  seal_scoped_bundle projects scope passphrase opts m =
      seal_payload (scoped_payload projects scope m) passphrase opts (some scoped_kind) m

  unfoldable pub open_bundle :
      BackupBundle sealer.Blob → (passphrase : String) → Result BackupError (BundlePayload E)
  open_bundle bundle passphrase = do
    payload ← decrypt_payload bundle passphrase
    require (not (is_scoped_payload payload)) scoped_bundle
    ok payload

  unfoldable pub open_any_bundle :
      BackupBundle sealer.Blob → (passphrase : String) → Result BackupError (Opened E)
  open_any_bundle bundle passphrase = do
    payload ← decrypt_payload bundle passphrase
    ok (if is_scoped_payload payload then scoped payload else full payload)

-- `file` is what JSON.parse gives of the text, where it does not throw.
unfoldable pub read_bundle_file :
    {C : Type 0} → (file : Option (BackupBundle C)) → Result BackupError (BackupBundle C)
read_bundle_file file = do
  raw ← or_fail file unrecognized
  require (str_eq raw.format backup_magic) unrecognized
  ok raw
