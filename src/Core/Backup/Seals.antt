-- ===== src/Core/Backup/Seals.antt =====
-- src/core/backup.ts: the opening of bundles.
use abracadabra.Common.{String, ◌≡◌, refl, Option, none, some, List, ok, err}
use abracadabra.Common.Maps.{Map}
use abracadabra.Core.Vault.{Project}
use abracadabra.Core.Envelope.{Sealer, Opens}
use abracadabra.Core.Backup.{
  Bytes, BundleMeta, KdfParams, BundlePayload, BackupBundle, KdfOptions, Sealing, scoped_bundle,
  full, scoped, full_payload, scoped_payload, kdf_of, scoped_kind, is_scoped_payload, derive_key,
  seal_payload, decrypt_payload, seal_bundle, seal_scoped_bundle, open_bundle, open_any_bundle,
}

module _ {E : Type 0} (sealer : Sealer (BundlePayload E)) (scrypt : String → KdfParams → Bytes)
    (nfkc : String → String) where
  pub decrypt_payload-seal_payload :
      (payload : BundlePayload E) (pass : String) (opts : KdfOptions) (kind : Option String)
      (m : Sealing)
      → Opens sealer
      → decrypt_payload sealer scrypt nfkc
          (seal_payload sealer scrypt nfkc payload pass opts kind m)
          pass
        ≡ ok payload
  unfolding decrypt_payload seal_payload derive_key
  decrypt_payload-seal_payload payload pass opts kind m o =
      rw (o (scrypt (nfkc pass) (kdf_of m opts)) m.iv payload) refl

  -- A full bundle opens with its passphrase, by `openBundle` and by `openAnyBundle` as a full one,
  -- and gives the envelope and the master key that were sealed: for a cipher that opens what it
  -- sealed.
  pub open_bundle-seal_bundle :
      (vault_enc : E) (master_key : Bytes) (pass : String) (opts : KdfOptions)
      (device_id lineage_id : Option String) (m : Sealing)
      → Opens sealer
      → let b =
          seal_bundle sealer scrypt nfkc vault_enc master_key pass opts device_id lineage_id m in
        let payload = full_payload vault_enc master_key device_id lineage_id m in
        (open_bundle sealer scrypt nfkc b pass ≡ ok payload)
        × (open_any_bundle sealer scrypt nfkc b pass ≡ ok (full payload))
  unfolding open_bundle open_any_bundle seal_bundle is_scoped_payload
  open_bundle-seal_bundle vault_enc master_key pass opts device_id lineage_id m o =
      let p = full_payload vault_enc master_key device_id lineage_id m in
      let e = decrypt_payload-seal_payload p pass opts none m o in (rw e refl, rw e refl)

  -- A scoped bundle opens with its passphrase by `openAnyBundle` only, as a scoped one, with the
  -- names and the projects that were sealed and with neither a master key nor a vault; `openBundle`
  -- refuses it: for a cipher that opens what it sealed.
  pub open_any_bundle-seal_scoped_bundle :
      (projects : Map Project) (scope : List String) (pass : String) (opts : KdfOptions)
      (m : Sealing)
      → Opens sealer
      → let b = seal_scoped_bundle sealer scrypt nfkc projects scope pass opts m in
        (open_any_bundle sealer scrypt nfkc b pass ≡ ok (scoped (scoped_payload projects scope m)))
        × (open_bundle sealer scrypt nfkc b pass ≡ err scoped_bundle)
  unfolding open_bundle open_any_bundle seal_scoped_bundle is_scoped_payload
  open_any_bundle-seal_scoped_bundle projects scope pass opts m o =
      let p = scoped_payload projects scope m in
      let e = decrypt_payload-seal_payload p pass opts (some scoped_kind) m o in
      (rw e refl, rw e refl)

  -- The outer `kind` and `meta` of a bundle, which anyone can change, play no part in its opening.
  pub open_any_bundle-hint :
      (b : BackupBundle sealer.Blob) (kind : Option String) (meta : BundleMeta) (pass : String)
      → (open_any_bundle sealer scrypt nfkc (record b { kind = kind; meta = meta }) pass
          ≡ open_any_bundle sealer scrypt nfkc b pass)
        × (open_bundle sealer scrypt nfkc (record b { kind = kind; meta = meta }) pass
            ≡ open_bundle sealer scrypt nfkc b pass)
  unfolding open_bundle open_any_bundle decrypt_payload
  open_any_bundle-hint b kind meta pass = (refl, refl)
