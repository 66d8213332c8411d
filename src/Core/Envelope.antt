-- ===== src/Core/Envelope.antt =====
-- src/core/vault.ts: the envelope of vault.enc. AES-256-GCM, `JSON.stringify` and `JSON.parse`
-- are not the repository's: a `Sealer` stands for them, and `Blob` for the members `iv`, `tag` and
-- `data`. The value that is sealed is of any type `V`.
use abracadabra.Common.{
  ℕ, String, str_eq, ◌≡◌, ◌≢◌, Option, none, some, List, Result, ok, err, if◌then◌else◌, not,
}

pub record Sealer (V : Type 0) : Type 1 where
  pub Blob : Type 0
  -- the key, the random `iv`, the value
  pub seal : List ℕ → ℕ → V → Blob
  -- `none` for a tag that does not fit, or for a text that is no JSON
  pub unseal : List ℕ → Blob → Option V

-- What is read back with the key that sealed it is what was sealed.
abbrev pub Opens : {V : Type 0} → Sealer V → Type 0
Opens {V} c = (key : List ℕ) (iv : ℕ) (v : V) → c.unseal key (c.seal key iv v) ≡ some v

-- No other key opens it.
abbrev pub Rejects : {V : Type 0} → Sealer V → Type 0
Rejects {V} c =
    (key other : List ℕ) (iv : ℕ) (v : V) → other ≢ key → c.unseal other (c.seal key iv v) ≡ none

-- A file of the vault's path: no JSON of an object, or an object with its `format`.
pub data VaultFile (B : Type 0) : Type 0 where
  unreadable : VaultFile B
  envelope : String → B → VaultFile B

pub data EnvelopeError : Type 0 where
  bad_json unrecognized unauthentic : EnvelopeError

abbrev pub vault_format : String
vault_format = "abracadabra-vault"

module _ {V : Type 0} (c : Sealer V) where
  unfoldable pub encrypt_vault : V → List ℕ → ℕ → VaultFile c.Blob
  encrypt_vault vault key iv = envelope vault_format (c.seal key iv vault)

  abbrev opened : Option V → Result EnvelopeError V
  opened none = err unauthentic
  opened (some v) = ok v

  -- `JSON.parse` of the file, then `decryptVault`.
  unfoldable pub decrypt_vault : VaultFile c.Blob → List ℕ → Result EnvelopeError V
  decrypt_vault unreadable key = err bad_json
  decrypt_vault (envelope format blob) key =
      if not (str_eq format vault_format) then err unrecognized else opened (c.unseal key blob)

  pub decrypt_vault-encrypt_vault :
      (v : V) (key : List ℕ) (iv : ℕ) → Opens c → decrypt_vault (encrypt_vault v key iv) key ≡ ok v
  unfolding decrypt_vault encrypt_vault
  decrypt_vault-encrypt_vault v key iv o = rw (o key iv v)
