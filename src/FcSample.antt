-- ===== src/FcSample.antt =====
-- src/FcSampleOffsets.cpp: the offsets at which a downloaded log is read again and compared. The set of offsets is
-- a rising list, and the loop runs on its bound on attempts.
pub mod Offsets
mod Examples
use mavlink_companion_log_se.Base.{
  ℕ, zero, suc, ◌+◌, ◌-◌, ◌*◌, ◌/◌, ◌%◌, ◌^◌, List, [], ◌∷◌, ◌&&◌, ◌||◌, ◌==◌, ltb, leb,
  if◌then◌else◌, length, take,
}
use Prim.Native.Nat.{bit_xor}
use mavlink_companion_log_se.Base.Bits.{u32, u64}
use mavlink_companion_log_se.Types.{Text}
use mavlink_companion_log_se.LogProtocol.{chunk_size, align_down_to_chunk, chunk_slot_index}

unfoldable pub nybble : ℕ → ℕ
nybble c =
    if leb b'0' c && leb c b'9'
    then c - b'0'
    else if leb b'a' c && leb c b'f'
    then 10 + c - b'a'
    else if leb b'A' c && leb c b'F'
    then 10 + c - b'A'
    else 0

-- The loop over the first 16 characters, two at a time; a missing second one counts as '0'.
unfoldable pub seed_loop : ℕ → ℕ → Text → ℕ → ℕ
seed_loop zero shift text seed = seed
seed_loop (suc pairs) shift [] seed = seed
seed_loop (suc pairs) shift (hi ∷ []) seed = bit_xor seed (nybble hi * 16 * 2 ^ shift)
seed_loop (suc pairs) shift (hi ∷ lo ∷ text) seed =
    seed_loop pairs (shift + 4) text (bit_xor seed ((nybble hi * 16 + nybble lo) * 2 ^ shift))

unfoldable pub seed_from_params : ℕ → ℕ → Text → ℕ
seed_from_params fc_log_id fc_log_size sha256_hex =
    let seed = seed_loop 8 0 sha256_hex (bit_xor (fc_log_id * 2 ^ 32) fc_log_size) in
    if seed == 0 then 1 else seed

unfoldable pub xorshift64 : ℕ → ℕ
xorshift64 state =
    let a = bit_xor state (u64 (state * 2 ^ 13)) in
    let b = bit_xor a (a / 2 ^ 7) in bit_xor b (u64 (b * 2 ^ 17))

unfoldable pub insert_offset : ℕ → List ℕ → List ℕ
insert_offset x [] = x ∷ []
insert_offset x (y ∷ ys) =
    if ltb x y then x ∷ y ∷ ys else if x == y then y ∷ ys else y ∷ insert_offset x ys

unfoldable pub add_anchor : ℕ → ℕ → List ℕ → List ℕ
add_anchor size offset out =
    if ltb size chunk_size
    then out
    else if leb offset (size - chunk_size)
    then insert_offset (align_down_to_chunk offset) out
    else out

unfoldable pub anchors : ℕ → List ℕ
anchors size =
    let start = add_anchor size (u32 (3 * size) / 4) (
      add_anchor size (size / 2)
        (add_anchor size (size / 4) (add_anchor size chunk_size (add_anchor size 0 [])))) in
    let more =
      if leb (2 * chunk_size) size then add_anchor size (size - 2 * chunk_size) start else start in
    add_anchor size (size - chunk_size) more

unfoldable pub random_loop : ℕ → ℕ → ℕ → ℕ → List ℕ → List ℕ
random_loop zero total_samples max_slot rng offsets = offsets
random_loop (suc attempts) total_samples max_slot rng offsets =
    let rng' = xorshift64 rng in
    let offset = u32 (u32 rng' % (max_slot + 1) * chunk_size) in
    let rest = random_loop attempts total_samples max_slot rng' (insert_offset offset offsets) in
    if ltb (length offsets) total_samples then rest else offsets

unfoldable pub build_fc_sample_offsets : ℕ → ℕ → ℕ → ℕ → Text → List ℕ
build_fc_sample_offsets size total_samples fc_log_id fc_log_size sha256_hex =
    let offsets = anchors size in
    let found =
      random_loop ((total_samples - length offsets) * 20) total_samples
        (chunk_slot_index (size - chunk_size)) (seed_from_params fc_log_id fc_log_size sha256_hex)
        offsets in
    if ltb size chunk_size || total_samples == 0 then [] else take total_samples found
