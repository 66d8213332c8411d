-- ===== src/Pairing/Encoding.antt =====
-- src/sync/identity.ts: lengthPrefixed, what is signed and hashed. A part is a list of bytes.
use abracadabra.Common.{ℕ, ◌/◌, ◌%◌, ◌<◌, ◌≡◌, refl, List, [], ◌∷◌, ◌++◌, length, All, arith}
use abracadabra.Agent.Buffers.{Bytes}

-- `writeUInt32BE`
unfoldable pub u32_be : ℕ → Bytes
u32_be n = n / 16777216 % 256 ∷ n / 65536 % 256 ∷ n / 256 % 256 ∷ n % 256 ∷ []

unfoldable pub length_prefixed : List Bytes → Bytes
length_prefixed [] = []
length_prefixed (p ∷ ps) = u32_be (length p) ++ (p ++ length_prefixed ps)

-- A part that `writeUInt32BE` takes: it throws on a longer one.
abbrev pub IsPart : Bytes → Type 0
IsPart p = length p < 4294967296

u32_be-append :
    (m n : ℕ) (x y : Bytes)
    → m < 4294967296
    → n < 4294967296
    → u32_be m ++ x ≡ u32_be n ++ y
    → (m ≡ n) × (x ≡ y)
unfolding u32_be
u32_be-append m n x y hm hn h = ground arith

append-cancel : (p q x y : Bytes) → length p ≡ length q → p ++ x ≡ q ++ y → (p ≡ q) × (x ≡ y)
append-cancel [] [] x y l h = (refl, h)
append-cancel [] (b ∷ q) x y l h = absurd (omega arith)
append-cancel (a ∷ p) [] x y l h = absurd (omega arith)
append-cancel (a ∷ p) (b ∷ q) x y l h =
    let rest = append-cancel p q x y (omega arith) (cc h) in (cc (h, rest.0), rest.1)

-- `lengthPrefixed` is unambiguous: what two lists of parts give is the same only if the lists are.
pub length_prefixed_inj :
    (ps qs : List Bytes)
    → All IsPart ps
    → All IsPart qs
    → length_prefixed ps ≡ length_prefixed qs
    → ps ≡ qs
unfolding length_prefixed
length_prefixed_inj [] [] hp hq h = refl
length_prefixed_inj [] (q ∷ qs) hp hq h = unfold u32_be in cc
length_prefixed_inj (p ∷ ps) [] hp hq h = unfold u32_be in cc
length_prefixed_inj (p ∷ ps) (q ∷ qs) hp hq h =
    let a = u32_be-append (length p) (length q) _ _ hp.0 hq.0 h in
    let b = append-cancel p q _ _ a.0 a.1 in cc (b.0, length_prefixed_inj ps qs hp.1 hq.1 b.1)
