-- ===== src/Common/Results.antt =====
-- What a call returns or throws. A `throw` leaves the chain.
use mathlib.Core.Path.{◌≡◌, refl}
use mathlib.Core.Bool.{Bool, true, false}
use mathlib.Core.Option.{Option, none, some}

pub data Result {ℓ} (E A : Type ℓ) : Type ℓ where
  ok : A → Result E A
  err : E → Result E A

-- `if (!test) throw e`
abbrev pub require : {E : Type 0} → Bool → E → Result E (Unit {0})
require false e = err e
require true e = ok tt

abbrev pub or_fail {ℓ} : {E : Type ℓ} {A : Type ℓ} → Option A → E → Result E A
or_fail (some a) e = ok a
or_fail none e = err e

infixl 5 ◌>>◌
module _ {ℓ} {E A B : Type ℓ} where
  infixl 5 ◌>>=◌
  abbrev pub ◌>>=◌ : Result E A → (A → Result E B) → Result E B
  r >>= next = elim r [ err e ↦ err e | ok a ↦ next a ]

  -- What a chain that succeeds has passed.
  pub >>=-eq-ok :
      (r : Result E A) (next : A → Result E B) {last : B}
      → (r >>= next) ≡ ok last
      → (a : A) × (r ≡ ok a) × (next a ≡ ok last)
  >>=-eq-ok (err e) next h = cc
  >>=-eq-ok (ok a) next h = (a, refl, h)

abbrev pub ◌>>◌ : {E : Type 0} {B : Type 0} → Result E (Unit {0}) → Result E B → Result E B
first >> rest = first >>= λ nothing. rest

pub require-eq-ok : {E : Type 0} (b : Bool) (e : E) {u : Unit {0}} → require b e ≡ ok u → b ≡ true
require-eq-ok true e h = refl
require-eq-ok false e h = cc
