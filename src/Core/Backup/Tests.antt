-- ===== src/Core/Backup/Tests.antt =====
-- Tests of src/core/backup.ts.
use abracadabra.Common.{String, ◌≡◌, refl, none, some, [], ◌∷◌, ok, err}
use abracadabra.Core.Envelope.{Sealer}
use abracadabra.Core.Backup.{
  BundlePayload, BackupBundle, KdfOptions, Sealing, unrecognized, scoped_bundle, scoped,
  scoped_payload, seal_scoped_bundle, open_bundle, open_any_bundle, read_bundle_file,
}
use abracadabra.Core.Backup.Seals.{open_any_bundle-seal_scoped_bundle}

-- A cipher that hides nothing.
abbrev plain : Sealer (BundlePayload String)
plain = record { Blob = BundlePayload String; seal = λ key iv p. p; unseal = λ key p. some p }

abbrev machine : Sealing
machine = record { now = 7; hostname = "laptop"; device_id = "d1"; salt = []; iv = 1 }

abbrev defaults : KdfOptions
defaults = record { n = none; r = none; p = none; key_len = none }

abbrev bundle : BackupBundle (BundlePayload String)
bundle =
    seal_scoped_bundle plain (λ pass kdf. []) (λ s. s) [] ("shop" ∷ []) "secret" defaults machine

open_any_bundle-seal_scoped_bundle_example :
    (open_any_bundle plain (λ pass kdf. []) (λ s. s) bundle "secret"
      ≡ ok (scoped (scoped_payload [] ("shop" ∷ []) machine)))
    × (open_bundle plain (λ pass kdf. []) (λ s. s) bundle "secret" ≡ err scoped_bundle)
open_any_bundle-seal_scoped_bundle_example =
    open_any_bundle-seal_scoped_bundle plain (λ pass kdf. []) (λ s. s) [] ("shop" ∷ []) "secret"
      defaults machine (λ key iv v. refl)

magic_test : read_bundle_file (some (record bundle { format = "zip" })) ≡ err unrecognized
unfolding read_bundle_file
magic_test = refl
