-- ===== src/Pairing/Sas.antt =====
-- src/sync/sas.ts: what the two machines sign, and the safety code that their users compare.
pub mod Binding
mod Tests
use Prim.Native.Char.{code}
use abracadabra.Common.{
  ℕ, zero, suc, ◌+◌, ◌-◌, ◌*◌, ◌/◌, ◌%◌, ◌^◌, leb, ◌==◌, String, Bool, true, false, ◌&&◌, ◌||◌,
  if◌then◌else◌, Option, none, some, List, [], ◌∷◌, ◌++◌, map, length,
}
use abracadabra.Agent.Buffers.{Bytes}
use abracadabra.Core.Vault.{SyncIdentity, SyncPeerRole, source, receiver}
use abracadabra.Pairing.Encoding.{length_prefixed}
use abracadabra.Pairing.Identity.{Crypto, decode_raw_key, holds}
use abracadabra.Pairing.Wordlist.{word}

abbrev pub pair_protocol : String
pair_protocol = "abra-sync-pair-v1"

pub data PairSide : Type 0 where
  listener connector : PairSide

abbrev pub side_text : PairSide → String
side_text listener = "listener"
side_text connector = "connector"

abbrev pub role_text : SyncPeerRole → String
role_text source = "source"
role_text receiver = "receiver"

-- The protocol's name is always `pair_protocol`.
pub record PairHello : Type 0 where
  pub id : String
  pub name : String
  pub ed25519 : String
  pub x25519 : String
  pub nonce : String
  pub role : Option SyncPeerRole

pub record TranscriptInput : Type 0 where
  pub tls_fingerprint : String
  pub listener : PairHello
  pub listener_role : SyncPeerRole
  pub connector : PairHello
  pub connector_role : SyncPeerRole

-- The hexadecimal digits of a text, in lower case, as bytes.
unfoldable pub normalize_fingerprint : String → Bytes
normalize_fingerprint String.[] = []
normalize_fingerprint (String.◌∷◌ c s) =
    let rest = normalize_fingerprint s in
    let digit =
      (leb b'0' (code c) && leb (code c) b'9') || (leb b'a' (code c) && leb (code c) b'f') in
    if digit
    then code c ∷ rest
    else if leb b'A' (code c) && leb (code c) b'F'
    then (code c + 32) ∷ rest
    else rest

pub record SafetyCode : Type 0 where
  pub words : List String
  -- the characters of the text
  pub digits : List ℕ

abbrev pub first_six : Bytes → Bytes
first_six (a ∷ b ∷ c ∷ d ∷ e ∷ f ∷ rest) = a ∷ b ∷ c ∷ d ∷ e ∷ f ∷ []
first_six bs = bs

unfoldable pub big_endian : ℕ → Bytes → ℕ
big_endian n [] = n
big_endian n (b ∷ bs) = big_endian (n * 256 + b) bs

-- The last `k` decimal digits, in groups of three.
unfoldable pub decimal : ℕ → ℕ → List ℕ
decimal zero n = []
decimal (suc k) n = let rest = decimal k (n / 10) ++ (b'0' + n % 10) ∷ [] in rest

abbrev in_threes : List ℕ → List ℕ
in_threes (a ∷ b ∷ c ∷ []) = a ∷ b ∷ c ∷ []
in_threes (a ∷ b ∷ c ∷ rest) = a ∷ b ∷ c ∷ b' ' ∷ in_threes rest
in_threes _ = []

module _ (crypto : Crypto) where
  open crypto use {from_base64, utf8, sha256, is_ed25519, sign, verify}

  unfoldable pub hello_parts : PairSide → PairHello → SyncPeerRole → List Bytes
  hello_parts side h role = map utf8 (
      side_text side
      ∷ pair_protocol
      ∷ h.id
      ∷ h.name
      ∷ h.ed25519
      ∷ h.x25519
      ∷ h.nonce
      ∷ role_text role
      ∷ [])

  unfoldable pub transcript_parts : TranscriptInput → List Bytes
  unfolding hello_parts
  transcript_parts t =
      utf8 pair_protocol
      ∷ normalize_fingerprint t.tls_fingerprint
      ∷ (hello_parts listener t.listener t.listener_role
          ++ hello_parts connector t.connector t.connector_role)

  unfoldable pub transcript_hash : TranscriptInput → Bytes
  transcript_hash t = sha256 (length_prefixed (transcript_parts t))

  unfoldable pub sig_message : PairSide → Bytes → Bytes
  sig_message side transcript =
      length_prefixed (utf8 "abra-sync-pair-sig-v1" ∷ utf8 (side_text side) ∷ transcript ∷ [])

  unfoldable pub sign_transcript : SyncIdentity → PairSide → Bytes → String
  sign_transcript identity side transcript =
      sign identity.ed25519_private (sig_message side transcript)

  unfoldable pub verify_transcript :
      (ed25519 : String) → PairSide → Bytes → (signature : String) → Bool
  verify_transcript ed25519 side transcript signature =
      length (from_base64 signature) == 64
      && holds crypto is_ed25519 (decode_raw_key crypto ed25519)
      && verify ed25519 (sig_message side transcript) signature

  unfoldable pub code_bytes : Bytes → Bytes
  code_bytes transcript =
      first_six (sha256 (length_prefixed (utf8 "abra-sync-sas-v1" ∷ transcript ∷ [])))

  unfoldable pub safety_code : Bytes → SafetyCode
  safety_code transcript =
      let bytes = code_bytes transcript in
      record {
        words = map word bytes;
        digits = in_threes (decimal 12 (big_endian 0 bytes % 10 ^ 12));
      }
