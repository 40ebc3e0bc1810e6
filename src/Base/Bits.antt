-- ===== src/Base/Bits.antt =====
-- Fixed widths, the range of the bit operations at every width, and checks by evaluation.
use Prim.Native.Nat.{
  ℕ, zero, suc, ◌-◌, ◌/◌, ◌%◌, ◌^◌, ◌≤◌, ◌<◌, bit_and, bit_or, bit_xor, digits, differ, min, max,
  bit_and-bitwise, bit_or-bitwise, bit_xor-bitwise,
}
use mathlib.Core.Path.{◌≡◌}
use mathlib.Core.Bool.{Bool, true, false}
use mavlink_companion_log_se.Base.Tests.{if◌then◌else◌}
use native.Mathlib.Nat.{pow-suc, le_refl}
use native.Mathlib.Omega.{arith}

abbrev pub u32 : ℕ → ℕ
u32 n = n % 2 ^ 32

abbrev pub u64 : ℕ → ℕ
u64 n = n % 2 ^ 64

-- `~x` on a `uint32_t`.
abbrev pub not32 : ℕ → ℕ
not32 x = 2 ^ 32 - 1 - x

-- Whether a test succeeds at each of the `limit` first numbers, from the last down.
unfoldable pub passes_below : (ℕ → Bool) → ℕ → Bool
passes_below test zero = true
passes_below test (suc limit) = if test limit then passes_below test limit else false

pub passes_below_at :
    (test : ℕ → Bool) (limit k : ℕ) → k < limit → passes_below test limit ≡ true → test k ≡ true
unfolding passes_below
passes_below_at test zero k below passed = elim below [ ]
passes_below_at test (suc limit) k below passed = ground (arith, passes_below_at test limit k)

-- An operation digit by digit stays within the width of its operands, if it sends digits to a digit
-- and adds none once the first operand has run out.
module _ (z : ℕ → ℕ) (f : ℕ → ℕ → ℕ) (shrinks : (b : ℕ) → z b ≤ b)
    (bit : (x y : ℕ) → x < 2 → y < 2 → f x y < 2) where
  digits-lt : (n k a b : ℕ) → a < 2 ^ k → b < 2 ^ k → digits z f n a b < 2 ^ k
  digits-lt zero k a b ha hb = omega (arith, shrinks b)
  digits-lt (suc n) k zero b ha hb = omega (arith, shrinks b)
  digits-lt (suc n) zero (suc a) b ha hb = absurd (omega arith)
  digits-lt (suc n) (suc k) (suc a) b ha hb = omega (
    arith,
    pow-suc 2 k,
    digits-lt n k (suc a / 2) (b / 2) (omega (arith, pow-suc 2 k)) (omega (arith, pow-suc 2 k)),
    bit (suc a % 2) (b % 2) (omega arith) (omega arith),
  )

differ-lt : (x y : ℕ) → x < 2 → y < 2 → differ x y < 2
differ-lt zero y a b = b
differ-lt (suc x) zero a b = a
differ-lt (suc zero) (suc y) a b = omega arith
differ-lt (suc (suc x)) (suc y) a b = absurd (omega arith)

pub bit_xor-lt : (k a b : ℕ) → a < 2 ^ k → b < 2 ^ k → bit_xor a b < 2 ^ k
bit_xor-lt k a b ha hb =
    simp bit_xor-bitwise (digits-lt (λ y. y) differ le_refl differ-lt a k a b ha hb)

pub bit_and-lt : (k a b : ℕ) → a < 2 ^ k → b < 2 ^ k → bit_and a b < 2 ^ k
bit_and-lt k a b ha hb =
    simp bit_and-bitwise
      (digits-lt (λ y. 0) min (λ y. omega arith) (λ x y p q. omega arith) a k a b ha hb)

pub bit_or-lt : (k a b : ℕ) → a < 2 ^ k → b < 2 ^ k → bit_or a b < 2 ^ k
bit_or-lt k a b ha hb =
    simp bit_or-bitwise (digits-lt (λ y. y) max le_refl (λ x y p q. omega arith) a k a b ha hb)
