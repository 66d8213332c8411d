-- ===== src/Common/Maps.antt =====
-- JavaScript's `Map` with string keys, and objects used as dictionaries: entries in the order of
-- insertion. Writing a key that is there keeps its place.
use Prim.Native.String.{String}
use mathlib.Core.Path.{◌≡◌, refl, subst₂}
use mathlib.Core.Bool.{Bool, true, false, ◌||◌}
use mathlib.Core.Option.{Option, none, some}
use mathlib.Core.List.{List, [], ◌∷◌}
use native.Mathlib.Omega.{arith}
use text.Mathlib.Text.{◌==◌ as str_eq}
use text.Mathlib.TextEquality.{eq_iff}
use text.Mathlib.TextPositions.{eq_refl}
use mathlib.Core.Logic.{inl, inr}
use abracadabra.Common.Lists.{All}
use abracadabra.Common.Tests.{if◌then◌else◌, is_some, Bool-cases}

abbrev pub Map {ℓ} : Type ℓ → Type ℓ
Map V = List (String × V)

unfoldable pub contains : String → List String → Bool
contains k [] = false
contains k (j ∷ js) = str_eq j k || contains k js

module _ {ℓ} {V : Type ℓ} where
  unfoldable pub get : String → Map V → Option V
  get k [] = none
  get k ((j, v) ∷ m) = if str_eq j k then some v else get k m

  abbrev pub has : String → Map V → Bool
  has k m = is_some (get k m)

  unfoldable pub set : String → V → Map V → Map V
  set k v [] = (k, v) ∷ []
  set k v ((j, w) ∷ m) = if str_eq j k then (j, v) ∷ m else (j, w) ∷ set k v m

  unfoldable pub delete : String → Map V → Map V
  delete k [] = []
  delete k ((j, v) ∷ m) = let rest = delete k m in if str_eq j k then rest else (j, v) ∷ rest

  abbrev pub keys : Map V → List String
  keys [] = []
  keys ((j, v) ∷ m) = j ∷ keys m

  -- No key stands twice.
  abbrev pub IsMap : Map V → Type 0
  IsMap [] = Unit
  IsMap ((j, v) ∷ m) = (has j m ≡ false) × IsMap m

  pub get-set :
      (k j : String) (v : V) (m : Map V)
      → get j (set k v m) ≡ (if str_eq k j then some v else get j m)
  unfolding get set
  get-set k j v [] = refl
  get-set k j v ((i, w) ∷ m) = ground (arith, eq_iff k j, eq_iff i k, eq_iff i j, get-set k j v m)

  pub get-set_self : (k : String) (v : V) (m : Map V) → get k (set k v m) ≡ some v
  get-set_self k v m = simp (get-set, eq_refl)

  pub get-delete :
      (k j : String) (m : Map V) → get j (delete k m) ≡ (if str_eq k j then none else get j m)
  unfolding get delete
  get-delete k j [] = ground arith
  get-delete k j ((i, w) ∷ m) = ground (arith, eq_iff k j, eq_iff i k, eq_iff i j, get-delete k j m)

  pub set-IsMap : (k : String) (v : V) (m : Map V) → IsMap m → IsMap (set k v m)
  unfolding get set
  set-IsMap k v [] h = (refl, tt)
  set-IsMap k v ((i, w) ∷ m) h =
      ground (arith, eq_iff i k, eq_iff k i, get-set k i v m, set-IsMap k v m h.1)

  pub delete-IsMap : (k : String) (m : Map V) → IsMap m → IsMap (delete k m)
  unfolding delete
  delete-IsMap k [] h = tt
  delete-IsMap k ((i, w) ∷ m) h = ground (arith, eq_iff i k, get-delete k i m, delete-IsMap k m h.1)

  pub contains-keys : (k : String) (m : Map V) → contains k (keys m) ≡ has k m
  unfolding get contains
  contains-keys k [] = refl
  contains-keys k ((i, w) ∷ m) = ground (arith, contains-keys k m)

module _ {ℓ} {V : Type ℓ} (P : String × V → Type 0) where
  pub All-set :
      (k : String) (v : V) (m : Map V)
      → ((j : String) → str_eq j k ≡ true → P (j, v))
      → All P m
      → All P (set k v m)
  unfolding set
  All-set k v [] h a = (h k (eq_refl k), tt)
  All-set k v ((i, w) ∷ m) h a = elim (Bool-cases (str_eq i k)) [
    | inl e ↦ rw e (h i e, a.1)
    | inr e ↦ rw e (a.0, All-set k v m h a.1)
  ]

  pub All-delete : (k : String) (m : Map V) → All P m → All P (delete k m)
  unfolding delete
  All-delete k [] a = tt
  All-delete k ((i, w) ∷ m) a = elim (Bool-cases (str_eq i k)) [
    | inl e ↦ rw e (All-delete k m a.1)
    | inr e ↦ rw e (a.0, All-delete k m a.1)
  ]

  -- What holds of every entry holds of the one that is found.
  pub All-get : (k : String) (m : Map V) {v : V} → All P m → get k m ≡ some v → P (k, v)
  unfolding get
  All-get k [] a h = absurd (cc)
  All-get k ((i, w) ∷ m) {v} a h = elim (Bool-cases (str_eq i k)) [
    | inl e ↦
        let same : w ≡ v = ground arith in subst₂ (λ j x. P (j, x)) ((eq_iff i k).0 e) same a.0
    | inr e ↦ All-get k m a.1 (rw e at h)
  ]
