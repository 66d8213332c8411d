-- ===== src/Pairing/Sas/Binding.antt =====
-- What a signature and a safety code are bound to.
use abracadabra.Common.{◌<◌, String, eq_iff, ◌≡◌, refl, [], ◌∷◌, map, All, arith}
use abracadabra.Agent.Buffers.{Bytes}
use abracadabra.Core.Vault.{SyncPeerRole, source, receiver}
use abracadabra.Pairing.Encoding.{length_prefixed, length_prefixed_inj, IsPart}
use abracadabra.Pairing.Identity.{Crypto}
use abracadabra.Pairing.Wordlist.{word, word_inj}
use abracadabra.Pairing.Sas.{
  PairSide, listener, connector, side_text, role_text, PairHello, TranscriptInput,
  normalize_fingerprint, transcript_parts, sig_message, safety_code, code_bytes,
}

-- Distinct texts have distinct UTF-8.
abbrev pub IsInjective : (String → Bytes) → Type 0
IsInjective f = (s t : String) → f s ≡ f t → s ≡ t

pub record SameHello (g h : PairHello) : Type 0 where
  pub id : g.id ≡ h.id
  pub name : g.name ≡ h.name
  pub ed25519 : g.ed25519 ≡ h.ed25519
  pub x25519 : g.x25519 ≡ h.x25519
  pub nonce : g.nonce ≡ h.nonce

role_text_inj : (a b : SyncPeerRole) → role_text a ≡ role_text b → a ≡ b
role_text_inj source source h = refl
role_text_inj receiver receiver h = refl
role_text_inj source receiver h = absurd (ground (arith, eq_iff "source" "receiver"))
role_text_inj receiver source h = absurd (ground (arith, eq_iff "receiver" "source"))

side_text_inj : (a b : PairSide) → side_text a ≡ side_text b → a ≡ b
side_text_inj listener listener h = refl
side_text_inj connector connector h = refl
side_text_inj listener connector h = absurd (ground (arith, eq_iff "listener" "connector"))
side_text_inj connector listener h = absurd (ground (arith, eq_iff "connector" "listener"))

module _ (crypto : Crypto) (inj : IsInjective crypto.utf8) where
  -- The transcript that is hashed fixes the certificate, both identities with their keys, names
  -- and nonces, and both roles, where distinct texts have distinct UTF-8 and each part is shorter
  -- than 4 GiB: two inputs whose parts are encoded alike agree in all of these.
  pub transcript_lem :
      (s t : TranscriptInput)
      → All IsPart (transcript_parts crypto s)
      → All IsPart (transcript_parts crypto t)
      → length_prefixed (transcript_parts crypto s) ≡ length_prefixed (transcript_parts crypto t)
      → (normalize_fingerprint s.tls_fingerprint ≡ normalize_fingerprint t.tls_fingerprint)
        × SameHello s.listener t.listener
        × (s.listener_role ≡ t.listener_role)
        × SameHello s.connector t.connector
        × (s.connector_role ≡ t.connector_role)
  unfolding transcript_parts
  transcript_lem s t ps pt h =
      let e = length_prefixed_inj (transcript_parts crypto s) (transcript_parts crypto t) ps pt h in
      (
        cc e,
        record {
          id = inj _ _ (cc e);
          name = inj _ _ (cc e);
          ed25519 = inj _ _ (cc e);
          x25519 = inj _ _ (cc e);
          nonce = inj _ _ (cc e);
        },
        role_text_inj _ _ (inj _ _ (cc e)),
        record {
          id = inj _ _ (cc e);
          name = inj _ _ (cc e);
          ed25519 = inj _ _ (cc e);
          x25519 = inj _ _ (cc e);
          nonce = inj _ _ (cc e);
        },
        role_text_inj _ _ (inj _ _ (cc e)),
      )

  -- A signature of one side cannot be passed off as the other's, or as one of another transcript,
  -- where distinct texts have distinct UTF-8 and each part is shorter than 4 GiB: the signed
  -- messages are equal only for the same side and the same transcript.
  pub sig_message_inj :
      (a b : PairSide) (s t : Bytes)
      → All IsPart (crypto.utf8 "abra-sync-pair-sig-v1" ∷ crypto.utf8 (side_text a) ∷ s ∷ [])
      → All IsPart (crypto.utf8 "abra-sync-pair-sig-v1" ∷ crypto.utf8 (side_text b) ∷ t ∷ [])
      → sig_message crypto a s ≡ sig_message crypto b t
      → (a ≡ b) × (s ≡ t)
  unfolding sig_message
  sig_message_inj a b s t ps pt h =
      let e =
        length_prefixed_inj
          (crypto.utf8 "abra-sync-pair-sig-v1" ∷ crypto.utf8 (side_text a) ∷ s ∷ [])
          (crypto.utf8 "abra-sync-pair-sig-v1" ∷ crypto.utf8 (side_text b) ∷ t ∷ []) ps pt h in
      (side_text_inj a b (inj _ _ (cc e)), cc e)

-- The words of two lists of bytes are the same only if the bytes are.
map-word_inj :
    (xs ys : Bytes)
    → All (λ x. x < 256) xs
    → All (λ y. y < 256) ys
    → map word xs ≡ map word ys
    → xs ≡ ys
map-word_inj [] [] hx hy h = refl
map-word_inj [] (y ∷ ys) hx hy h = cc
map-word_inj (x ∷ xs) [] hx hy h = cc
map-word_inj (x ∷ xs) (y ∷ ys) hx hy h =
    cc (word_inj x y hx.0 hy.0 (cc h), map-word_inj xs ys hx.1 hy.1 (cc h))

-- Two transcripts whose digests are bytes show the same six words only if they have the same 48
-- bits of their digest, and then they show the same digits.
pub safety_code_words :
    (crypto : Crypto) (s t : Bytes)
    → All (λ x. x < 256) (code_bytes crypto s)
    → All (λ x. x < 256) (code_bytes crypto t)
    → (safety_code crypto s).words ≡ (safety_code crypto t).words
    → (code_bytes crypto s ≡ code_bytes crypto t)
      × ((safety_code crypto s).digits ≡ (safety_code crypto t).digits)
unfolding safety_code
safety_code_words crypto s t hs ht h =
    let e = map-word_inj (code_bytes crypto s) (code_bytes crypto t) hs ht h in (e, rw e refl)
