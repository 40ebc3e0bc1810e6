-- ===== src/Base/Counting.antt =====
-- How many numbers below a bound pass a test.
use Prim.Native.Nat.{ℕ, zero, suc, ◌+◌, ◌≤◌, ◌<◌}
use mathlib.Core.Path.{◌≡◌, refl}
use mathlib.Core.Logic.{◌↔◌}
use mathlib.Core.Bool.{Bool, true, false, ◌||◌}
use native.Mathlib.Omega.{arith}
use mavlink_companion_log_se.Base.Tests.{◌==◌, if◌then◌else◌}

unfoldable pub count_below : ℕ → (ℕ → Bool) → ℕ
count_below zero p = 0
count_below (suc n) p = (if p n then 1 else 0) + count_below n p

pub count_below-disjoint :
    (n : ℕ) (p q : ℕ → Bool)
    → ((x : ℕ) → p x ≡ true → q x ≡ false)
    → count_below n (λ x. p x || q x) ≡ count_below n p + count_below n q
unfolding count_below
count_below-disjoint zero p q h = refl
count_below-disjoint (suc n) p q h = ground (arith, h n, count_below-disjoint n p q h)

pub count_below-none : (n : ℕ) → count_below n (λ _. false) ≡ 0
unfolding count_below
count_below-none zero = refl
count_below-none (suc n) = omega (arith, count_below-none n)

pub count_below-le : (n : ℕ) (p : ℕ → Bool) → count_below n p ≤ n
unfolding count_below
count_below-le zero p = omega arith
count_below-le (suc n) p = ground (arith, count_below-le n p)

-- None passes.
pub count_below-zero : (n : ℕ) (p : ℕ → Bool) → ((x : ℕ) → p x ≡ false) → count_below n p ≡ 0
unfolding count_below
count_below-zero zero p h = refl
count_below-zero (suc n) p h = ground (arith, h n, count_below-zero n p h)

count_below_same :
    (n : ℕ) (p q : ℕ → Bool) (i : ℕ)
    → n ≤ i
    → ((x : ℕ) → q x ≡ (i == x || p x))
    → count_below n q ≡ count_below n p
unfolding count_below
count_below_same zero p q i le h = refl
count_below_same (suc n) p q i le h = ground (arith, h n, count_below_same n p q i)

-- One more number passes.
pub count_below_set :
    (n : ℕ) (p q : ℕ → Bool) (i : ℕ)
    → i < n
    → p i ≡ false
    → ((x : ℕ) → q x ≡ (i == x || p x))
    → count_below n q ≡ suc (count_below n p)
unfolding count_below
count_below_set zero p q i lt new h = absurd (omega arith)
count_below_set (suc n) p q i lt new h =
    ground (arith, h n, h i, count_below_set n p q i, count_below_same n p q i)

full-all : (n : ℕ) (p : ℕ → Bool) (x : ℕ) → n ≤ count_below n p → x < n → p x ≡ true
unfolding count_below
full-all zero p x e lt = absurd (omega arith)
full-all (suc n) p x e lt = ground (arith, count_below-le n p, full-all n p x)

all-full : (n : ℕ) (p : ℕ → Bool) → ((x : ℕ) → x < n → p x ≡ true) → n ≤ count_below n p
unfolding count_below
all-full zero p h = omega arith
all-full (suc n) p h = ground (arith, h n (omega arith), all-full n p (λ x lt. h x (omega arith)))

-- The count reaches the bound exactly if all pass.
pub count_below_full :
    (n : ℕ) (p : ℕ → Bool) → (n ≤ count_below n p) ↔ ((x : ℕ) → x < n → p x ≡ true)
count_below_full n p = (λ e x. full-all n p x e, all-full n p)
