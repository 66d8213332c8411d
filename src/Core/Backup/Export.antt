-- ===== src/Core/Backup/Export.antt =====
-- src/core/vault.ts: the envelope of a vault that leaves the machine, in a bundle.
use abracadabra.Common.{ℕ, String, ◌≡◌, refl, Option, some, get_or, Result, ok}
use abracadabra.Core.Vault.{Vault, without_device_local}
use abracadabra.Core.Envelope.{Sealer, Opens, EnvelopeError, envelope, vault_format, decrypt_vault}
use abracadabra.Core.Backup.{Bytes}

-- An envelope may come without its `format`.
pub record VaultEnvelope (B : Type 0) : Type 0 where
  pub format : Option String
  pub blob : B

module _ (sealer : Sealer Vault) where
  unfoldable pub encrypt_vault_for_export : Vault → Bytes → (iv : ℕ) → VaultEnvelope sealer.Blob
  encrypt_vault_for_export vault key iv = record {
    format = some vault_format;
    blob = sealer.seal key iv (without_device_local vault);
  }

  unfoldable pub decrypt_envelope : VaultEnvelope sealer.Blob → Bytes → Result EnvelopeError Vault
  decrypt_envelope env key =
      decrypt_vault sealer (envelope (get_or env.format vault_format) env.blob) key

  -- A vault that was exported opens with the key as it was, less the device-local fields.
  pub decrypt_envelope-encrypt_vault_for_export :
      (vault : Vault) (key : Bytes) (iv : ℕ)
      → Opens sealer
      → decrypt_envelope (encrypt_vault_for_export vault key iv) key
        ≡ ok (without_device_local vault)
  unfolding decrypt_envelope encrypt_vault_for_export decrypt_vault
  decrypt_envelope-encrypt_vault_for_export vault key iv o =
      rw (o key iv (without_device_local vault)) refl
