-- ===== src/FcSample/Offsets.antt =====
-- Where the sampled offsets lie.
use mavlink_companion_log_se.Base.{
  ℕ, zero, suc, ◌+◌, ◌-◌, ◌*◌, ◌/◌, ◌%◌, ◌^◌, ◌≤◌, ◌<◌, ◌≡◌, refl, List, [], ◌∷◌, Bool, true, false,
  ◌||◌, ◌==◌, ltb, leb, if◌then◌else◌, length, take, length-take, arith, Bool-cases, inl, inr,
}
use native.Mathlib.Nat.{mod-lt}
use mavlink_companion_log_se.Base.Bits.{u32}
use mavlink_companion_log_se.Types.{Text}
use mavlink_companion_log_se.LogProtocol.{chunk_size, align_down_to_chunk, chunk_slot_index}
use mavlink_companion_log_se.FcSample.{
  xorshift64, insert_offset, add_anchor, anchors, random_loop, build_fc_sample_offsets,
}

-- Rising from `lo` on, each offset that of a chunk whole within the size.
abbrev pub Samples : ℕ → ℕ → List ℕ → Type 0
Samples size lo [] = Unit {0}
Samples size lo (x ∷ xs) =
    (lo ≤ x) × (x + chunk_size ≤ size) × (x % chunk_size ≡ 0) × Samples size (suc x) xs

Samples-lower : (size a b : ℕ) (xs : List ℕ) → a ≤ b → Samples size b xs → Samples size a xs
Samples-lower size a b [] h s = tt
Samples-lower size a b (x ∷ xs) h s = (omega (arith, s.0), s.1, s.2, s.3)

Samples-insert :
    (size x : ℕ) (xs : List ℕ) (lo : ℕ)
    → lo ≤ x
    → x + chunk_size ≤ size
    → x % chunk_size ≡ 0
    → Samples size lo xs
    → Samples size lo (insert_offset x xs)
unfolding insert_offset
Samples-insert size x [] lo a b c s = (a, b, c, tt)
Samples-insert size x (y ∷ ys) lo a b c s = elim (Bool-cases (ltb x y)) [
  | inl below ↦ rw (below, insert_offset) (a, b, c, (ground arith, s.1, s.2, s.3))
  | inr above ↦ elim (Bool-cases (x == y)) [
    | inl same ↦ rw (above, same, insert_offset) s
    | inr other ↦
        rw (above, other, insert_offset)
          (s.0, s.1, s.2, Samples-insert size x ys (suc y) (ground arith) b c s.3)
  ]
]

Samples-if :
    (size lo : ℕ) (b : Bool) (xs ys : List ℕ)
    → (b ≡ true → Samples size lo xs)
    → (b ≡ false → Samples size lo ys)
    → Samples size lo (if b then xs else ys)
Samples-if size lo true xs ys t f = t refl
Samples-if size lo false xs ys t f = f refl

Samples-add_anchor :
    (size offset : ℕ) (xs : List ℕ) → Samples size 0 xs → Samples size 0 (add_anchor size offset xs)
unfolding add_anchor align_down_to_chunk
Samples-add_anchor size offset xs s =
    Samples-if size 0 (ltb size chunk_size) xs _ (λ e. s)
      (λ big.
        Samples-if size 0 (leb offset (size - chunk_size)) _ xs
          (λ e.
            Samples-insert size (align_down_to_chunk offset) xs 0 (omega arith) (ground arith)
              (omega arith) s)
          (λ e. s))

Samples-anchors : (size : ℕ) → Samples size 0 (anchors size)
unfolding anchors
Samples-anchors size =
    let start = Samples-add_anchor size (u32 (3 * size) / 4) _ (
      Samples-add_anchor size (size / 2) _ (
        Samples-add_anchor size (size / 4) _
          (Samples-add_anchor size chunk_size _ (Samples-add_anchor size 0 [] tt)))) in
    Samples-add_anchor size (size - chunk_size) _ (
      Samples-if size 0 (leb (2 * chunk_size) size) _ _
        (λ e. Samples-add_anchor size (size - 2 * chunk_size) _ start) (λ e. start))

-- A slot up to the last whole one begins a chunk within the size.
slot-offset :
    (size slot : ℕ)
    → chunk_size ≤ size
    → size < 2 ^ 32
    → slot < (size - chunk_size) / chunk_size + 1
    → (u32 (slot * chunk_size) + chunk_size ≤ size) × (u32 (slot * chunk_size) % chunk_size ≡ 0)
slot-offset size slot big small lt =
    let inside : slot * chunk_size + chunk_size ≤ size = omega arith in
    let same : u32 (slot * chunk_size) ≡ slot * chunk_size = omega arith in
    (omega arith, rw same (omega arith))

Samples-random_loop :
    (attempts size total : ℕ) (rng : ℕ) (xs : List ℕ)
    → chunk_size ≤ size
    → size < 2 ^ 32
    → Samples size 0 xs
    → Samples size 0 (random_loop attempts total (chunk_slot_index (size - chunk_size)) rng xs)
unfolding random_loop chunk_slot_index
Samples-random_loop zero size total rng xs big small s = s
Samples-random_loop (suc attempts) size total rng xs big small s =
    let slot = u32 (xorshift64 rng) % ((size - chunk_size) / chunk_size + 1) in
    let at = slot-offset size slot big small (mod-lt (u32 (xorshift64 rng)) (omega arith)) in
    Samples-if size 0 (ltb (length xs) total) _ xs
      (λ e.
        Samples-random_loop attempts size total (xorshift64 rng)
          (insert_offset (u32 (slot * chunk_size)) xs) big small
          (Samples-insert size (u32 (slot * chunk_size)) xs 0 (omega arith) at.0 at.1 s))
      (λ e. s)

length-take_le : (n : ℕ) (xs : List ℕ) → length (take n xs) ≤ n
length-take_le n xs = omega (arith, length-take n xs)

Samples-take : (n size lo : ℕ) (xs : List ℕ) → Samples size lo xs → Samples size lo (take n xs)
Samples-take zero size lo xs s = tt
Samples-take (suc n) size lo [] s = tt
Samples-take (suc n) size lo (x ∷ xs) s = (s.0, s.1, s.2, Samples-take n size (suc x) xs s.3)

-- The offsets to read again are at most as many as asked for, rise strictly, and each begins a chunk that
-- lies whole within the log, so that the comparison reads no byte that is not there. The log is smaller
-- than 2 ^ 32 bytes.
pub build_fc_sample_offsets_lem :
    (size total_samples fc_log_id fc_log_size : ℕ) (sha256_hex : Text)
    → size < 2 ^ 32
    → let offsets = build_fc_sample_offsets size total_samples fc_log_id fc_log_size sha256_hex in
      Samples size 0 offsets × (length offsets ≤ total_samples)
unfolding build_fc_sample_offsets
build_fc_sample_offsets_lem size total_samples fc_log_id fc_log_size sha256_hex small =
    elim (Bool-cases (ltb size chunk_size || total_samples == 0)) [
      | inl empty ↦ rw (empty, build_fc_sample_offsets) (tt, omega arith)
      | inr some_left ↦
          let big : chunk_size ≤ size = ground arith in
          rw (some_left, build_fc_sample_offsets)
            (
              Samples-take total_samples size 0 _ (
                  Samples-random_loop _ size total_samples _ (anchors size) big small
                    (Samples-anchors size)),
              length-take_le total_samples _,
            )
    ]
