-- ===== src/Coverage/Bitmap.antt =====
-- A bit that is set is the only one that changes.
use mavlink_companion_log_se.Base.{
  ℕ, ◌/◌, ◌%◌, ◌^◌, ◌<◌, ◌≡◌, refl, bit_and, bit_or, List, [], ◌∷◌, Bool, true, false, ◌&&◌, ◌||◌,
  not, ltb, ◌==◌, if◌then◌else◌, length, get_or, set, arith, zero, suc, inl, inr, Bool-cases,
  length-set, replicate, ltb→lt,
}
use Prim.Native.Nat.{bit_and-bitwise}
use mavlink_companion_log_se.Base.Bits.{passes_below, passes_below_at, bit_or-lt}
use mavlink_companion_log_se.Crc32.{Bytes}
use mavlink_companion_log_se.Coverage.{bitmap_test, bitmap_set}

zero-bit_and : (b : ℕ) → bit_and 0 b ≡ 0
zero-bit_and b = bit_and-bitwise 0 b

-- All bytes and all pairs of bits.
bool_eq : Bool → Bool → Bool
bool_eq true b = b
bool_eq false b = not b

bool_eq_sound : (a b : Bool) → bool_eq a b ≡ true → a ≡ b
unfolding bool_eq
bool_eq_sound a b h = ground arith

bit_law : ℕ → ℕ → ℕ → Bool
bit_law byte i j =
    bool_eq (bit_and (bit_or byte (2 ^ i)) (2 ^ j) == 0)
      (not (i == j) && (bit_and byte (2 ^ j) == 0))

bit_table : passes_below (λ byte. passes_below (λ i. passes_below (bit_law byte i) 8) 8) 256 ≡ true
unfolding passes_below bit_law bool_eq
bit_table = refl

test-set_bit :
    (byte i j : ℕ)
    → byte < 256
    → i < 8
    → j < 8
    → (bit_and (bit_or byte (2 ^ i)) (2 ^ j) == 0) ≡ (not (i == j) && (bit_and byte (2 ^ j) == 0))
unfolding bit_law
test-set_bit byte i j hb hi hj = bool_eq_sound _ _ (
    passes_below_at (bit_law byte i) 8 j hj (
      passes_below_at (λ k. passes_below (bit_law byte k) 8) 8 i hi
        (passes_below_at _ 256 byte hb bit_table)))

get_or-set :
    (xs : List ℕ) (i j v : ℕ)
    → i < length xs
    → get_or (set xs i v) j 0 ≡ (if i == j then v else get_or xs j 0)
get_or-set [] i j v h = absurd (omega arith)
get_or-set (x ∷ xs) zero zero v h = refl
get_or-set (x ∷ xs) zero (suc j) v h = ground arith
get_or-set (x ∷ xs) (suc i) zero v h = ground arith
get_or-set (x ∷ xs) (suc i) (suc j) v h = ground (arith, get_or-set xs i j v)

Bytes-get_or : (xs : List ℕ) (i : ℕ) → Bytes xs → get_or xs i 0 < 256
Bytes-get_or [] i b = omega arith
Bytes-get_or (x ∷ xs) zero b = b.0
Bytes-get_or (x ∷ xs) (suc i) b = Bytes-get_or xs i b.1

Bytes-set : (xs : List ℕ) (i v : ℕ) → Bytes xs → v < 256 → Bytes (set xs i v)
Bytes-set [] i v b h = tt
Bytes-set (x ∷ xs) zero v b h = (h, b.1)
Bytes-set (x ∷ xs) (suc i) v b h = (b.0, Bytes-set xs i v b.1 h)

pub Bytes-replicate : (n : ℕ) → Bytes (replicate n 0)
Bytes-replicate zero = tt
Bytes-replicate (suc n) = (omega arith, Bytes-replicate n)

two_pow_lt : (i : ℕ) → i < 8 → 2 ^ i < 256
unfolding passes_below
two_pow_lt i h = ltb→lt _ _ (passes_below_at (λ k. ltb (2 ^ k) 256) 8 i h refl)

pub bitmap_set-Bytes : (bm : List ℕ) (s : ℕ) → Bytes bm → Bytes (bitmap_set bm s)
unfolding bitmap_set
bitmap_set-Bytes bm s b = elim (Bool-cases (ltb (s / 8) (length bm))) [
  | inl in_range ↦ rw in_range (
      Bytes-set bm (s / 8) _ b
        (bit_or-lt 8 _ _ (Bytes-get_or bm (s / 8) b) (two_pow_lt (s % 8) (omega arith))))
  | inr out ↦ rw out b
]

pub length-bitmap_set : (bm : List ℕ) (s : ℕ) → length (bitmap_set bm s) ≡ length bm
unfolding bitmap_set
length-bitmap_set bm s =
    ground (arith, length-set bm (s / 8) (bit_or (get_or bm (s / 8) 0) (2 ^ (s % 8))))

pub test-bitmap_set :
    (bm : List ℕ) (s t : ℕ)
    → Bytes bm
    → s / 8 < length bm
    → bitmap_test (bitmap_set bm s) t ≡ (s == t || bitmap_test bm t)
unfolding bitmap_test bitmap_set
test-bitmap_set bm s t b h = ground (
  arith,
  length-set bm (s / 8) (bit_or (get_or bm (s / 8) 0) (2 ^ (s % 8))),
  get_or-set bm (s / 8) (t / 8) (bit_or (get_or bm (s / 8) 0) (2 ^ (s % 8))),
  test-set_bit (get_or bm (s / 8) 0) (s % 8) (t % 8) (Bytes-get_or bm (s / 8) b),
)

get_or-replicate_zero : (n i : ℕ) → get_or {A = ℕ} (replicate n 0) i 0 ≡ 0
get_or-replicate_zero zero i = refl
get_or-replicate_zero (suc n) zero = refl
get_or-replicate_zero (suc n) (suc i) = get_or-replicate_zero n i

pub test-empty : (n t : ℕ) → bitmap_test (replicate n 0) t ≡ false
unfolding bitmap_test
test-empty n t = ground (arith, get_or-replicate_zero n (t / 8), zero-bit_and (2 ^ (t % 8)))
