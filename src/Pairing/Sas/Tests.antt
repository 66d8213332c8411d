-- ===== src/Pairing/Sas/Tests.antt =====
-- Tests of src/sync/sas.ts.
use text.Mathlib.TextEquality.{Char-path}
use abracadabra.Common.{◌≡◌, refl, String, none, List, [], ◌∷◌}
use abracadabra.Agent.Buffers.{Bytes}
use abracadabra.Core.Vault.{source, receiver}
use abracadabra.Pairing.Example.{codes, key}
use abracadabra.Pairing.Sas.{listener, side_text, PairHello, TranscriptInput, normalize_fingerprint}
use abracadabra.Pairing.Sas.Binding.{IsInjective}

codes-IsInjective : IsInjective codes
codes-IsInjective String.[] String.[] h = refl
codes-IsInjective String.[] (String.◌∷◌ d t) h = cc
codes-IsInjective (String.◌∷◌ c s) String.[] h = cc
codes-IsInjective (String.◌∷◌ c s) (String.◌∷◌ d t) h =
    cc (Char-path c d (cc h), codes-IsInjective s t (cc h))

abbrev hello : PairHello
hello = record {
  id = "1";
  name = "laptop";
  ed25519 = key b'a';
  x25519 = key b'b';
  nonce = key b'c';
  role = none;
}

abbrev input : TranscriptInput
input = record {
  tls_fingerprint = "AB:0F";
  listener = hello;
  listener_role = source;
  connector = hello;
  connector_role = receiver;
}

abbrev digest : Bytes
digest = 7 ∷ []

abbrev sig_parts : List Bytes
sig_parts = codes "abra-sync-pair-sig-v1" ∷ codes (side_text listener) ∷ digest ∷ []

normalize_fingerprint_test : normalize_fingerprint "AB:0f" ≡ b'a' ∷ b'b' ∷ b'0' ∷ b'f' ∷ []
unfolding normalize_fingerprint
normalize_fingerprint_test = refl
