-- ===== src/Pairing/Example.antt =====
-- Test data for the pairing of two machines: texts of one repeated letter for keys and signatures,
-- and functions that are simple enough to be evaluated.
use Prim.Native.Char.{code}
use abracadabra.Common.{ℕ, ◌==◌, String, str_eq, true, false, none, some, [], ◌∷◌, if◌then◌else◌}
use abracadabra.Agent.Buffers.{Bytes}
use abracadabra.Core.Vault.{Vault, empty_vault, SyncIdentity}
use abracadabra.Pairing.Identity.{Crypto}
use abracadabra.Pairing.Session.{Machine, default_pair_timeouts}

abbrev pub codes : String → Bytes
codes String.[] = []
codes (String.◌∷◌ c s) = code c ∷ codes s

abbrev pub key : ℕ → String
key c =
    if c == b'a'
    then "aaaaaaaaaaaaaaaaaaaaaaaaaaaaaaaa"
    else if c == b'b'
    then "bbbbbbbbbbbbbbbbbbbbbbbbbbbbbbbb"
    else if c == b'c'
    then "cccccccccccccccccccccccccccccccc"
    else if c == b'd'
    then "dddddddddddddddddddddddddddddddd"
    else "pppppppppppppppppppppppppppppppp"

abbrev pub signature : String
signature = "ssssssssssssssssssssssssssssssssssssssssssssssssssssssssssssssss"

abbrev key_of : Bytes → String
key_of [] = ""
key_of (c ∷ bs) = key c

abbrev pub crypto : Crypto
crypto = record {
  from_base64 = codes;
  to_base64 = key_of;
  utf8 = codes;
  sha256 = λ b. b;
  to_hex = λ b. "00112233445566778899aabbccddeeff";
  is_ed25519 = λ b. true;
  is_x25519 = λ b. true;
  sign = λ k b. signature;
  verify = λ k b s. str_eq s signature;
}

abbrev pub laptop : SyncIdentity
laptop = record {
  id = "00000000-0000-4000-8000-000000000001";
  created_at = 1;
  ed25519_public = key b'a';
  ed25519_private = key b'p';
  x25519_public = key b'b';
  x25519_private = key b'p';
}

abbrev pub desktop : SyncIdentity
desktop = record {
  id = "00000000-0000-4000-8000-000000000002";
  created_at = 1;
  ed25519_public = key b'c';
  ed25519_private = key b'p';
  x25519_public = key b'd';
  x25519_private = key b'p';
}

abbrev pub vault_of : SyncIdentity → Vault
vault_of i = record empty_vault { sync_identity = some i }

abbrev pub machine : (hostname : String) → SyncIdentity → Machine
machine hostname i = record {
  crypto = crypto;
  to_lower = λ s. s;
  hostname = hostname;
  nonce = key b'p';
  now = 7;
  vault = vault_of i;
  identity = i;
  created = false;
  peer_name = none;
  overwrite = false;
  timeouts = default_pair_timeouts;
}
