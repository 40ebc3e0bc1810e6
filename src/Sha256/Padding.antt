-- ===== src/Sha256/Padding.antt =====
-- The padding loop ends within its fuel, and the whole of the padding as bytes.
use mavlink_companion_log_se.Base.{
  ℕ, zero, suc, ◌+◌, ◌-◌, ◌*◌, ◌/◌, ◌%◌, ◌^◌, ◌<◌, ◌≡◌, sym, ap, ◌∙◌, List, [], ◌∷◌, ◌++◌, length,
  length-append, length-replicate, replicate, arith,
}
use mavlink_companion_log_se.Base.Bits.{u64}
use mavlink_companion_log_se.Sha256.{
  Sha, push_byte, absorb, pad_zeros, big_endian, pad_and_finalize,
}
use mavlink_companion_log_se.Sha256.Stream.{absorb-append, absorb-len}

-- The zero bytes that take a buffer from `len` to 56.
abbrev pub zeros_for : ℕ → ℕ
zeros_for len = (120 - len) % 64

pad_zeros-absorb :
    (fuel : ℕ) (s : Sha) (k : ℕ)
    → s.buffer_len < 64
    → k ≡ zeros_for s.buffer_len
    → k < fuel
    → pad_zeros fuel s ≡ absorb s (replicate k 0)
unfolding pad_zeros absorb push_byte
pad_zeros-absorb zero s k h e lt = absurd (omega arith)
pad_zeros-absorb (suc fuel) s zero h e lt = ground arith
pad_zeros-absorb (suc fuel) s (suc k) h e lt =
    ground (arith, pad_zeros-absorb fuel (push_byte s 0) k)

-- The padding of a message of `n` bytes: a marker, zeros, and the length in bits.
unfoldable pub padding : ℕ → List ℕ
padding n = 0x80 ∷ replicate (zeros_for ((n + 1) % 64)) 0 ++ big_endian (n * 8)

pub length-padding : (n : ℕ) → n + length (padding n) ≡ (n + 72) / 64 * 64
unfolding padding big_endian
length-padding n = omega (
  arith,
  length-append (replicate (zeros_for ((n + 1) % 64)) 0) (big_endian (n * 8)),
  length-replicate {A = ℕ} (zeros_for ((n + 1) % 64)) 0,
)

-- Finalising a consistent context absorbs the padding of the bytes that it has counted.
pub pad_and_finalize-absorb :
    (s : Sha)
    → s.buffer_len ≡ s.total_bytes % 64
    → s.total_bytes * 8 < 2 ^ 64
    → (pad_and_finalize s).0 ≡ absorb s (padding s.total_bytes)
unfolding pad_and_finalize padding absorb
pad_and_finalize-absorb s e h =
    ap (λ r. absorb r (big_endian (u64 (s.total_bytes * 8)))) zeros
    ∙ sym (absorb-append _ (replicate k 0) (big_endian (u64 (s.total_bytes * 8))))
    ∙ ap (λ n. absorb s (0x80 ∷ replicate k 0 ++ big_endian n)) fits
  where
    k : ℕ
    k = zeros_for ((s.total_bytes + 1) % 64)

    zeros : pad_zeros 64 (absorb s (0x80 ∷ [])) ≡ absorb (absorb s (0x80 ∷ [])) (replicate k 0)
    zeros =
        pad_zeros-absorb 64 (absorb s (0x80 ∷ [])) k (omega (arith, absorb-len s (0x80 ∷ [])))
          (omega (arith, absorb-len s (0x80 ∷ []))) (omega arith)

    fits : u64 (s.total_bytes * 8) ≡ s.total_bytes * 8
    fits = omega arith
