-- ===== src/Sha256/Standard.antt =====
-- FIPS 180-4: the constants, the padding, the blocks and the printed digest, and that `hashHex` of
-- src/Sha256.cpp follows them.
use mavlink_companion_log_se.Base.{
  ℕ, zero, suc, ◌+◌, ◌-◌, ◌*◌, ◌/◌, ◌%◌, ◌^◌, ◌≤◌, ◌<◌, ◌≡◌, refl, subst, List, [], ◌∷◌, ◌++◌, Bool,
  true, false, ◌&&◌, ◌==◌, leb, ltb, get_or, length, take, drop, length-take, length-drop,
  take-append-drop, length-append, replicate, some, arith,
}
use mavlink_companion_log_se.Base.Tests.{==_iff}
use mavlink_companion_log_se.Base.Bits.{passes_below, passes_below_at}
use mavlink_companion_log_se.Sha256.{
  hash_hex, transform, hex_digit, bytes_to_hex, state_bytes, big_endian,
}
use mavlink_companion_log_se.Sha256.Constants.{round_constants, initial_state}
use mavlink_companion_log_se.Sha256.Compression.{Compresses, transform-Compresses}
use mavlink_companion_log_se.Sha256.Padding.{padding, length-padding}
use mavlink_companion_log_se.Sha256.Digest.{compress_blocks, sha256_digest, hash_hex-digest}

-- The constants: the first 32 bits of the fractional parts of the roots of the first primes.
abbrev primes : List ℕ
primes =
    2 ∷ 3 ∷ 5 ∷ 7 ∷ 11 ∷ 13 ∷ 17 ∷ 19 ∷ 23 ∷ 29 ∷ 31 ∷ 37 ∷ 41 ∷ 43 ∷ 47 ∷ 53 ∷ 59 ∷ 61 ∷ 67 ∷ 71
    ∷ 73 ∷ 79 ∷ 83 ∷ 89 ∷ 97 ∷ 101 ∷ 103 ∷ 107 ∷ 109 ∷ 113 ∷ 127 ∷ 131 ∷ 137 ∷ 139 ∷ 149 ∷ 151 ∷ 157
    ∷ 163 ∷ 167 ∷ 173 ∷ 179 ∷ 181 ∷ 191 ∷ 193 ∷ 197 ∷ 199 ∷ 211 ∷ 223 ∷ 227 ∷ 229 ∷ 233 ∷ 239 ∷ 241
    ∷ 251 ∷ 257 ∷ 263 ∷ 269 ∷ 271 ∷ 277 ∷ 281 ∷ 283 ∷ 293 ∷ 307 ∷ 311 ∷ []

-- `k` is the first 32 bits after the point of the `e`-th root of `p`.
record IsFraction (e p k : ℕ) : Type 0 where
  whole : ℕ
  small : k < 2 ^ 32
  below : (whole * 2 ^ 32 + k) ^ e ≤ p * 2 ^ (32 * e)
  above : p * 2 ^ (32 * e) < (whole * 2 ^ 32 + k + 1) ^ e

data Fractions (e : ℕ) : List ℕ → List ℕ → Type 0 where
  all_checked : Fractions e [] []
  checked :
      {p k : ℕ} {ps ks : List ℕ}
      → IsFraction e p k
      → Fractions e ps ks
      → Fractions e (p ∷ ps) (k ∷ ks)

-- The message with a marker, zeros, and its length in bits.
abbrev eight_bytes : ℕ → List ℕ
eight_bytes n =
    n / 256 ^ 7 % 256
    ∷ n / 256 ^ 6 % 256
    ∷ n / 256 ^ 5 % 256
    ∷ n / 256 ^ 4 % 256
    ∷ n / 256 ^ 3 % 256
    ∷ n / 256 ^ 2 % 256
    ∷ n / 256 % 256
    ∷ n % 256
    ∷ []

record IsPadded (message padded : List ℕ) : Type 0 where
  zeros : ℕ
  fewest : zeros < 64
  form : padded ≡ message ++ (0x80 ∷ replicate zeros 0 ++ eight_bytes (length message * 8))

-- The blocks of 64 bytes, one after the other.
data Hashes (ks : List ℕ) : List ℕ → List ℕ → List ℕ → Type 0 where
  no_block : {state : List ℕ} → Hashes ks state [] state
  hashed_block :
      {state block next rest final : List ℕ}
      → length block ≡ 64
      → Compresses ks state block next
      → Hashes ks next rest final
      → Hashes ks state (block ++ rest) final

-- The words in hexadecimal.
abbrev digit : ℕ → ℕ
digit n =
    get_or
      (b'0' ∷ b'1' ∷ b'2' ∷ b'3' ∷ b'4' ∷ b'5' ∷ b'6' ∷ b'7' ∷ b'8' ∷ b'9' ∷ b'a' ∷ b'b' ∷ b'c'
        ∷ b'd' ∷ b'e' ∷ b'f' ∷ [])
      n 0

printed : List ℕ → List ℕ
printed [] = []
printed (w ∷ ws) =
    digit (w / 16 ^ 7 % 16)
    ∷ digit (w / 16 ^ 6 % 16)
    ∷ digit (w / 16 ^ 5 % 16)
    ∷ digit (w / 16 ^ 4 % 16)
    ∷ digit (w / 16 ^ 3 % 16)
    ∷ digit (w / 16 ^ 2 % 16)
    ∷ digit (w / 16 % 16)
    ∷ digit (w % 16)
    ∷ printed ws

pub record IsSha256 (message digest : List ℕ) : Type 0 where
  constants : List ℕ
  are_cube_roots : Fractions 3 primes constants
  start : List ℕ
  are_square_roots : Fractions 2 (take 8 primes) start
  padded : List ℕ
  is_padded : IsPadded message padded
  final : List ℕ
  hashed : Hashes constants start padded final
  is_printed : digest ≡ printed final

-- The tables, by evaluation: `qs` are the whole parts of the roots.
fractions_pass : ℕ → List ℕ → List ℕ → List ℕ → Bool
fractions_pass e [] [] [] = true
fractions_pass e (q ∷ qs) (p ∷ ps) (k ∷ ks) =
    ltb k (2 ^ 32)
    && leb ((q * 2 ^ 32 + k) ^ e) (p * 2 ^ (32 * e))
    && ltb (p * 2 ^ (32 * e)) ((q * 2 ^ 32 + k + 1) ^ e)
    && fractions_pass e qs ps ks
fractions_pass e qs ps ks = false

fractions_pass-Fractions :
    (e : ℕ) (qs ps ks : List ℕ) → fractions_pass e qs ps ks ≡ true → Fractions e ps ks
unfolding fractions_pass
fractions_pass-Fractions e [] [] [] h = all_checked
fractions_pass-Fractions e [] [] (k ∷ ks) h = absurd (ground arith)
fractions_pass-Fractions e [] (p ∷ ps) ks h = absurd (ground arith)
fractions_pass-Fractions e (q ∷ qs) [] ks h = absurd (ground arith)
fractions_pass-Fractions e (q ∷ qs) (p ∷ ps) [] h = absurd (ground arith)
fractions_pass-Fractions e (q ∷ qs) (p ∷ ps) (k ∷ ks) h =
    checked (record { whole = q; small = ground arith; below = ground arith; above = ground arith })
      (fractions_pass-Fractions e qs ps ks (ground arith))

round_constants-Fractions : Fractions 3 primes round_constants
unfolding fractions_pass
round_constants-Fractions =
    fractions_pass-Fractions 3
      (1 ∷ 1 ∷ 1 ∷ 1 ∷ 2 ∷ 2 ∷ 2 ∷ 2 ∷ 2 ∷ 3 ∷ 3 ∷ 3 ∷ 3 ∷ 3 ∷ 3 ∷ 3 ∷ 3 ∷ 3 ∷ 4 ∷ 4 ∷ 4 ∷ 4 ∷ 4 ∷ 4
        ∷ 4 ∷ 4 ∷ 4 ∷ 4 ∷ 4 ∷ 4 ∷ 5 ∷ 5 ∷ 5 ∷ 5 ∷ 5 ∷ 5 ∷ 5 ∷ 5 ∷ 5 ∷ 5 ∷ 5 ∷ 5 ∷ 5 ∷ 5 ∷ 5 ∷ 5 ∷ 5
        ∷ 6 ∷ 6 ∷ 6 ∷ 6 ∷ 6 ∷ 6 ∷ 6 ∷ 6 ∷ 6 ∷ 6 ∷ 6 ∷ 6 ∷ 6 ∷ 6 ∷ 6 ∷ 6 ∷ 6 ∷ [])
      primes round_constants refl

initial_state-Fractions : Fractions 2 (take 8 primes) initial_state
unfolding fractions_pass
initial_state-Fractions =
    fractions_pass-Fractions 2 (1 ∷ 1 ∷ 2 ∷ 2 ∷ 3 ∷ 3 ∷ 4 ∷ 4 ∷ []) (take 8 primes) initial_state
      refl

compress_blocks-Hashes :
    (n : ℕ) (st m : List ℕ)
    → length m ≡ n * 64
    → Hashes round_constants st m (compress_blocks n st m)
unfolding compress_blocks
compress_blocks-Hashes zero st [] h = no_block
compress_blocks-Hashes zero st (x ∷ m) h = absurd (omega arith)
compress_blocks-Hashes (suc n) st m h =
    subst
      (λ l. Hashes round_constants st l (compress_blocks n (transform st (take 64 m)) (drop 64 m)))
      (take-append-drop 64 m)
      (hashed_block (omega (arith, length-take 64 m)) (transform-Compresses st (take 64 m)) (
        compress_blocks-Hashes n (transform st (take 64 m)) (drop 64 m)
          (omega (arith, length-drop 64 m))))

hex_digit-digit : (n : ℕ) → n < 16 → hex_digit n ≡ digit n
unfolding hex_digit passes_below
hex_digit-digit n h =
    (==_iff (hex_digit n) (digit n)).0 (passes_below_at (λ k. hex_digit k == digit k) 16 n h refl)

shown : {a b : ℕ} {r r' : List ℕ} → a < 16 → a ≡ b → r ≡ r' → hex_digit a ∷ r ≡ digit b ∷ r'
shown {a} {b} {r} {r'} h e rest = rw (hex_digit-digit a h, e, rest) refl

state_bytes-printed : (ws : List ℕ) → bytes_to_hex (state_bytes ws) ≡ printed ws
unfolding bytes_to_hex state_bytes printed
state_bytes-printed [] = refl
state_bytes-printed (w ∷ ws) = shown (omega arith) (omega arith) (
    shown (omega arith) (omega arith) (
      shown (omega arith) (omega arith) (
        shown (omega arith) (omega arith) (
          shown (omega arith) (omega arith) (
            shown (omega arith) (omega arith) (
              shown (omega arith) (omega arith)
                (shown (omega arith) (omega arith) (state_bytes-printed ws))))))))

padding-IsPadded : (m : List ℕ) → IsPadded m (m ++ padding (length m))
unfolding padding big_endian
padding-IsPadded m = record {
  zeros = (120 - (length m + 1) % 64) % 64;
  fewest = omega arith;
  form = refl;
}

-- `hashHex` does not throw, and gives the SHA-256 digest of the standard: the message padded with its
-- marker, zeros and bit length, its blocks of 64 bytes compressed by the functions of FIPS 180-4, with the
-- constants that are the first bits of the fractional parts of the roots of the first primes, and the last state
-- in hexadecimal. The message's length in bits is below 2 ^ 64.
pub hash_hex-IsSha256 :
    (m : List ℕ)
    → length m * 8 < 2 ^ 64
    → (digest : List ℕ) × (hash_hex m ≡ some digest) × IsSha256 m digest
unfolding sha256_digest
hash_hex-IsSha256 m h = (
  sha256_digest m,
  hash_hex-digest m h,
  record {
    constants = round_constants;
    are_cube_roots = round_constants-Fractions;
    start = initial_state;
    are_square_roots = initial_state-Fractions;
    padded = m ++ padding (length m);
    is_padded = padding-IsPadded m;
    final = compress_blocks ((length m + 72) / 64) initial_state (m ++ padding (length m));
    hashed =
        compress_blocks-Hashes ((length m + 72) / 64) initial_state (m ++ padding (length m))
          (omega (arith, length-append m (padding (length m)), length-padding (length m)));
    is_printed = state_bytes-printed _;
  },
)
