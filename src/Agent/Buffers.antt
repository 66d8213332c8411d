-- ===== src/Agent/Buffers.antt =====
-- Node's `Buffer`s, as far as the agent uses them: it copies key material (`Buffer.from`), reads
-- it, and overwrites it with zeros (`fill(0)`). A buffer is named by the place at which it was
-- allocated, so that a copy that is no longer referred to is still seen.
use abracadabra.Common.{ℕ, zero, suc, ◌≡◌, ◌≢◌, refl, ap, List, [], ◌∷◌, ◌++◌, length, All}

abbrev pub Bytes : Type 0
Bytes = List ℕ

abbrev pub Heap : Type 0
Heap = List Bytes

abbrev pub alloc : Heap → Bytes → Heap
alloc h b = h ++ b ∷ []

abbrev pub zeros : Bytes → Bytes
zeros [] = []
zeros (x ∷ xs) = 0 ∷ zeros xs

unfoldable pub fill : Heap → ℕ → Heap
fill [] a = []
fill (b ∷ h) zero = zeros b ∷ h
fill (b ∷ h) (suc a) = b ∷ fill h a

unfoldable pub read : Heap → ℕ → Bytes
read [] a = []
read (b ∷ h) zero = b
read (b ∷ h) (suc a) = read h a

abbrev pub IsZero : Bytes → Type 0
IsZero = All (λ x. x ≡ 0)

pub zeros-IsZero : (b : Bytes) → IsZero (zeros b)
zeros-IsZero [] = tt
zeros-IsZero (x ∷ b) = (refl, zeros-IsZero b)

pub read-fill_self : (h : Heap) (a : ℕ) → IsZero (read (fill h a) a)
unfolding read fill
read-fill_self [] a = tt
read-fill_self (b ∷ h) zero = zeros-IsZero b
read-fill_self (b ∷ h) (suc a) = read-fill_self h a

pub read-fill_ne : (h : Heap) (a c : ℕ) → a ≢ c → read (fill h a) c ≡ read h c
unfolding read fill
read-fill_ne [] a c n = refl
read-fill_ne (b ∷ h) zero zero n = absurd (n refl)
read-fill_ne (b ∷ h) zero (suc c) n = refl
read-fill_ne (b ∷ h) (suc a) zero n = refl
read-fill_ne (b ∷ h) (suc a) (suc c) n = read-fill_ne h a c (λ e. n (ap suc e))

pub length-fill : (h : Heap) (a : ℕ) → length (fill h a) ≡ length h
unfolding fill
length-fill [] a = refl
length-fill (b ∷ h) zero = refl
length-fill (b ∷ h) (suc a) = ap suc (length-fill h a)

pub read-alloc_new : (h : Heap) (b : Bytes) → read (alloc h b) (length h) ≡ b
unfolding read
read-alloc_new [] b = refl
read-alloc_new (c ∷ h) b = read-alloc_new h b

pub read-alloc_old : (h : Heap) (b : Bytes) (a : ℕ) → a ≢ length h → read (alloc h b) a ≡ read h a
unfolding read
read-alloc_old [] b zero n = absurd (n refl)
read-alloc_old [] b (suc a) n = refl
read-alloc_old (c ∷ h) b zero n = refl
read-alloc_old (c ∷ h) b (suc a) n = read-alloc_old h b a (λ e. n (ap suc e))
