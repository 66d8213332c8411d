-- ===== src/Pairing/Identity.antt =====
-- src/sync/identity.ts: the keys of a machine. What the code takes from Node is a `Crypto`: base64,
-- UTF-8, SHA-256, hexadecimal, and the keys and signatures of Ed25519.
use Prim.Native.Char.{code}
use abracadabra.Common.{
  ℕ, zero, suc, leb, ◌==◌, String, str_eq, Bool, true, false, ◌&&◌, ◌||◌, not, if◌then◌else◌,
  Option, none, some, [], ◌∷◌, length, Result, ok, err,
}
use abracadabra.Agent.Buffers.{Bytes}
use abracadabra.Core.Vault.{Vault, SyncIdentity}
use abracadabra.Pairing.Encoding.{length_prefixed}

pub record Crypto : Type 0 where
  pub from_base64 : String → Bytes
  pub to_base64 : Bytes → String
  pub utf8 : String → Bytes
  pub sha256 : Bytes → Bytes
  pub to_hex : Bytes → String
  -- whether `createPublicKey` takes the raw key, for each curve
  pub is_ed25519 : Bytes → Bool
  pub is_x25519 : Bytes → Bool
  -- a private key and a message to a signature, in base64
  pub sign : String → Bytes → String
  pub verify : String → Bytes → String → Bool

is_hex : ℕ → Bool
is_hex c = (leb b'0' c && leb c b'9') || (leb b'a' c && leb c b'f') || (leb b'A' c && leb c b'F')

-- A text of a shape in which `h` stands for a hexadecimal digit.
fits : String → String → Bool
fits String.[] String.[] = true
fits String.[] (String.◌∷◌ c s) = false
fits (String.◌∷◌ t ts) String.[] = false
fits (String.◌∷◌ t ts) (String.◌∷◌ c s) =
    (if code t == b'h' then is_hex (code c) else code t == code c) && fits ts s

unfoldable pub is_uuid : String → Bool
unfolding fits is_hex
is_uuid id = fits "hhhhhhhh-hhhh-hhhh-hhhh-hhhhhhhhhhhh" id

abbrev take : ℕ → String → String
take n String.[] = String.[]
take zero (String.◌∷◌ c s) = String.[]
take (suc n) (String.◌∷◌ c s) = String.◌∷◌ c (take n s)

-- `(s.match(/.{4}/g) ?? []).join(" ")`: what is left of less than four characters is dropped.
in_fours : String → String
in_fours (String.◌∷◌ a (String.◌∷◌ b (String.◌∷◌ c (String.◌∷◌ d String.[])))) =
    String.◌∷◌ a (String.◌∷◌ b (String.◌∷◌ c (String.◌∷◌ d String.[])))
in_fours (String.◌∷◌ a (String.◌∷◌ b (String.◌∷◌ c (String.◌∷◌ d s)))) =
    let rest = in_fours s in
    String.◌∷◌ a (
      String.◌∷◌ b
        (String.◌∷◌ c (String.◌∷◌ d (if str_eq rest "" then "" else String.◌∷◌ " " rest))))
in_fours _ = String.[]

pub data IdentityError : Type 0 where
  malformed : IdentityError

module _ (crypto : Crypto) where
  open crypto use {from_base64, to_base64, utf8, sha256, to_hex, is_ed25519, is_x25519}

  -- `decodeRawKey`, `none` where it throws.
  unfoldable pub decode_raw_key : String → Option Bytes
  decode_raw_key b64 =
      let buf = from_base64 b64 in
      if not (length buf == 32) || not (str_eq (to_base64 buf) b64) then none else some buf

  abbrev pub holds : (Bytes → Bool) → Option Bytes → Bool
  holds test none = false
  holds test (some b) = test b

  unfoldable pub valid_public_keys : (ed25519 x25519 : String) → Bool
  valid_public_keys ed25519 x25519 =
      holds is_ed25519 (decode_raw_key ed25519) && holds is_x25519 (decode_raw_key x25519)

  unfoldable pub is_valid_identity : SyncIdentity → Bool
  is_valid_identity i =
      is_uuid i.id
      && valid_public_keys i.ed25519_public i.x25519_public
      && holds (λ b. true) (decode_raw_key i.ed25519_private)
      && holds (λ b. true) (decode_raw_key i.x25519_private)

  -- `fresh` is what generateSyncIdentity draws.
  unfoldable pub get_or_create_sync_identity :
      Vault → (fresh : SyncIdentity) → Result IdentityError (Vault × SyncIdentity × Bool)
  get_or_create_sync_identity vault fresh = elim vault.sync_identity [
    | none ↦ ok (record vault { sync_identity = some fresh }, fresh, true)
    | some i ↦ if is_valid_identity i then ok (vault, i, false) else err malformed
  ]

  unfoldable pub id_digest : Bytes → Bytes → String
  unfolding in_fours
  id_digest ed x =
      in_fours (take 32 (to_hex (sha256 (length_prefixed (utf8 "abra-sync-id-v1" ∷ ed ∷ x ∷ [])))))

  unfoldable pub identity_fingerprint : (ed25519 x25519 : String) → Option String
  identity_fingerprint ed25519 x25519 = elim (decode_raw_key ed25519) [
    | none ↦ none
    | some ed ↦ elim (decode_raw_key x25519) [ none ↦ none | some x ↦ some (id_digest ed x) ]
  ]
