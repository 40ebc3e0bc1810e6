-- ===== src/Base/Run.antt =====
-- Runs over a schedule of events: a result, a fault of the code, or a schedule that ends before the code does.
use mathlib.Core.Option.{Option, none, some}
use mathlib.Core.Path.{◌≡◌, refl}

pub data Run {ℓ} (A : Type ℓ) : Type ℓ where
  finished : A → Run A
  fault : Run A
  unfinished : Run A

infixl 5 ◌>>=◌
abbrev pub ◌>>=◌ {ℓ κ} : {A : Type ℓ} {B : Type κ} → Run A → (A → Run B) → Run B
finished a >>= f = f a
fault >>= f = fault
unfinished >>= f = unfinished

abbrev pub from_option {ℓ} : {A : Type ℓ} → Option A → Run A
from_option none = fault
from_option (some a) = finished a

-- The result is as `P` says, and there is no fault; a schedule that is too short comes with a proof of `U`.
abbrev pub Upto {ℓ} : Type 0 → {A : Type ℓ} → (A → Type 0) → Run A → Type 0
Upto U P (finished a) = P a
Upto U P fault = ⊥
Upto U P unfinished = U

-- There is a result, and it is as `P` says.
abbrev pub Returns {ℓ} : {A : Type ℓ} → (A → Type 0) → Run A → Type 0
Returns P m = Upto ⊥ P m

module _ {ℓ κ} {A : Type ℓ} {B : Type κ} (U : Type 0) (P : A → Type 0) (Q : B → Type 0) where
  pub Upto-bind :
      (m : Run A) (f : A → Run B)
      → Upto U P m
      → ((a : A) → P a → Upto U Q (f a))
      → Upto U Q (m >>= f)
  Upto-bind (finished a) f p next = next a p
  Upto-bind fault f p next = elim p [ ]
  Upto-bind unfinished f p next = p

pub Upto-Returns {ℓ} :
    {A : Type ℓ} (U : Type 0) (P : A → Type 0) (m : Run A) → Returns P m → Upto U P m
Upto-Returns U P (finished a) p = p
Upto-Returns U P fault p = elim p [ ]
Upto-Returns U P unfinished p = elim p [ ]

pub Returns-result {ℓ} :
    {A : Type ℓ} (P : A → Type 0) (m : Run A) → Returns P m → (a : A) × (m ≡ finished a) × P a
Returns-result P (finished a) p = (a, refl, p)
Returns-result P fault p = elim p [ ]
Returns-result P unfinished p = elim p [ ]
