-- ===== src/Crc32.antt =====
-- src/Crc32.cpp: the bitwise CRC-32 of the chunk fingerprints.
mod Examples
use mavlink_companion_log_se.Base.{
  ℕ, zero, suc, ◌-◌, ◌/◌, ◌%◌, ◌^◌, ◌<◌, ◌≡◌, refl, bit_and, bit_xor, List, [], ◌∷◌, ◌++◌, arith,
  ap, ◌∙◌,
}
use mavlink_companion_log_se.Base.Bits.{not32, bit_xor-lt, bit_and-lt}

-- One round of the inner loop. `-(crc & 1U)` is all ones or zero.
unfoldable pub crc_bit : ℕ → ℕ
crc_bit crc =
    let mask = (2 ^ 32 - bit_and crc 1) % 2 ^ 32 in bit_xor (crc / 2) (bit_and 0xEDB88320 mask)

pub crc_bits : ℕ → ℕ → ℕ
crc_bits zero crc = crc
crc_bits (suc n) crc = crc_bits n (crc_bit crc)

unfoldable pub crc_bytes : List ℕ → ℕ → ℕ
unfolding crc_bits crc_bit
crc_bytes [] crc = crc
crc_bytes (b ∷ bs) crc = crc_bytes bs (crc_bits 8 (bit_xor crc b))

unfoldable pub crc32 : List ℕ → ℕ → ℕ
unfolding crc_bytes
crc32 bytes crc = not32 (crc_bytes bytes (not32 crc))

-- Bytes, as the elements of a `uint8_t` buffer.
abbrev pub Bytes : List ℕ → Type 0
Bytes [] = Unit {0}
Bytes (b ∷ bs) = (b < 256) × Bytes bs

crc_bit-lt : (crc : ℕ) → crc < 2 ^ 32 → crc_bit crc < 2 ^ 32
unfolding crc_bit
crc_bit-lt crc h =
    bit_xor-lt 32 (crc / 2) _ (omega arith) (bit_and-lt 32 0xEDB88320 _ (omega arith) (omega arith))

crc_bits-lt : (n crc : ℕ) → crc < 2 ^ 32 → crc_bits n crc < 2 ^ 32
unfolding crc_bits
crc_bits-lt zero crc h = h
crc_bits-lt (suc n) crc h = crc_bits-lt n (crc_bit crc) (crc_bit-lt crc h)

crc_bytes-lt : (bs : List ℕ) (crc : ℕ) → Bytes bs → crc < 2 ^ 32 → crc_bytes bs crc < 2 ^ 32
unfolding crc_bytes
crc_bytes-lt [] crc b h = h
crc_bytes-lt (x ∷ xs) crc b h =
    crc_bytes-lt xs _ b.1 (crc_bits-lt 8 _ (bit_xor-lt 32 crc x h (omega (arith, b.0))))

crc_bytes-append :
    (xs ys : List ℕ) (crc : ℕ) → crc_bytes (xs ++ ys) crc ≡ crc_bytes ys (crc_bytes xs crc)
unfolding crc_bytes
crc_bytes-append [] ys crc = refl
crc_bytes-append (x ∷ xs) ys crc = crc_bytes-append xs ys _

pub crc32-lt : (bytes : List ℕ) (crc : ℕ) → crc32 bytes crc < 2 ^ 32
unfolding crc32
crc32-lt bytes crc = omega arith

-- The checksum of a buffer can be taken in two parts, the first part's checksum being handed to the
-- second call: for bytes and a 32-bit start value.
pub crc32-append :
    (xs ys : List ℕ) (crc : ℕ)
    → Bytes xs
    → crc < 2 ^ 32
    → crc32 (xs ++ ys) crc ≡ crc32 ys (crc32 xs crc)
unfolding crc32
crc32-append xs ys crc b h = ap not32 (
    crc_bytes-append xs ys (not32 crc)
    ∙ ap (crc_bytes ys) (double_not (crc_bytes xs (not32 crc)) (crc_bytes-lt xs _ b (omega arith))))
  where
    double_not : (x : ℕ) → x < 2 ^ 32 → x ≡ not32 (not32 x)
    double_not x h = omega arith
