-- ===== src/Sha256.antt =====
-- src/Sha256.cpp: the streaming SHA-256 of downloads and probes. A thrown `runtime_error` is `none`.
mod Constants
pub mod Stream
mod Padding
pub mod Compression
pub mod Digest
mod Standard
mod Examples
use mavlink_companion_log_se.Base.{
  ℕ, zero, suc, ◌+◌, ◌-◌, ◌*◌, ◌/◌, ◌%◌, ◌^◌, bit_and, bit_or, bit_xor, List, [], ◌∷◌, ◌++◌, Bool,
  true, false, Option, none, some, ltb, ◌==◌, if◌then◌else◌, get_or, set, replicate,
}
use mavlink_companion_log_se.Base.Bits.{u32, u64, not32}
use Constants.{round_constants, initial_state}

pub rotr : ℕ → ℕ → ℕ
rotr x n = bit_or (x / 2 ^ n) (u32 (x * 2 ^ (32 - n)))

pub ch : ℕ → ℕ → ℕ → ℕ
ch x y z = bit_xor (bit_and x y) (bit_and (not32 x) z)

pub maj : ℕ → ℕ → ℕ → ℕ
maj x y z = bit_xor (bit_xor (bit_and x y) (bit_and x z)) (bit_and y z)

pub sig0 : ℕ → ℕ
unfolding rotr
sig0 x = bit_xor (bit_xor (rotr x 2) (rotr x 13)) (rotr x 22)

pub sig1 : ℕ → ℕ
unfolding rotr
sig1 x = bit_xor (bit_xor (rotr x 6) (rotr x 11)) (rotr x 25)

pub ep0 : ℕ → ℕ
unfolding rotr
ep0 x = bit_xor (bit_xor (rotr x 7) (rotr x 18)) (x / 2 ^ 3)

pub ep1 : ℕ → ℕ
unfolding rotr
ep1 x = bit_xor (bit_xor (rotr x 17) (rotr x 19)) (x / 2 ^ 10)

pub hex_digit : ℕ → ℕ
hex_digit n = if ltb n 10 then b'0' + n else b'a' + (n - 10)

-- The characters' codes.
pub bytes_to_hex : List ℕ → List ℕ
unfolding hex_digit
bytes_to_hex [] = []
bytes_to_hex (b ∷ bs) = hex_digit (b / 16) ∷ hex_digit (b % 16) ∷ bytes_to_hex bs

-- The first sixteen words of the schedule, from `n` words on at word `i`.
pub load_words : ℕ → ℕ → List ℕ → List ℕ
load_words zero i block = []
load_words (suc n) i block =
    let byte = λ (k : ℕ). get_or block (i * 4 + k) 0 in
    bit_or (bit_or (bit_or (u32 (byte 0 * 2 ^ 24)) (byte 1 * 2 ^ 16)) (byte 2 * 2 ^ 8)) (byte 3)
    ∷ load_words n (i + 1) block

pub extend_words : ℕ → ℕ → List ℕ → List ℕ
unfolding ep0 ep1
extend_words zero i w = w
extend_words (suc n) i w =
    let at = λ (k : ℕ). get_or w (i - k) 0 in
    extend_words n (i + 1) (w ++ u32 (ep1 (at 2) + at 7 + ep0 (at 15) + at 16) ∷ [])

pub record Vars : Type 0 where
  pub a : ℕ
  pub b : ℕ
  pub c : ℕ
  pub d : ℕ
  pub e : ℕ
  pub f : ℕ
  pub g : ℕ
  pub h : ℕ

pub round : Vars → ℕ → ℕ → Vars
unfolding sig0 sig1 ch maj
round v k w =
    let t1 = u32 (v.h + sig1 v.e + ch v.e v.f v.g + k + w) in
    let t2 = u32 (sig0 v.a + maj v.a v.b v.c) in
    record {
      a = u32 (t1 + t2);
      b = v.a;
      c = v.b;
      d = v.c;
      e = u32 (v.d + t1);
      f = v.e;
      g = v.f;
      h = v.g;
    }

pub rounds : List ℕ → List ℕ → Vars → Vars
unfolding round
rounds [] ws v = v
rounds (k ∷ ks) [] v = v
rounds (k ∷ ks) (w ∷ ws) v = rounds ks ws (round v k w)

-- `transform`: the new state words from the old ones and a block.
pub transform : List ℕ → List ℕ → List ℕ
unfolding load_words extend_words rounds
transform state block =
    let word = λ (i : ℕ). get_or state i 0 in
    let start : Vars = record {
      a = word 0;
      b = word 1;
      c = word 2;
      d = word 3;
      e = word 4;
      f = word 5;
      g = word 6;
      h = word 7;
    } in
    let v = rounds round_constants (extend_words 48 16 (load_words 16 0 block)) start in
    u32 (word 0 + v.a)
    ∷ u32 (word 1 + v.b)
    ∷ u32 (word 2 + v.c)
    ∷ u32 (word 3 + v.d)
    ∷ u32 (word 4 + v.e)
    ∷ u32 (word 5 + v.f)
    ∷ u32 (word 6 + v.g)
    ∷ u32 (word 7 + v.h)
    ∷ []

pub record Sha : Type 0 where
  pub state : List ℕ
  pub buffer : List ℕ
  pub total_bytes : ℕ
  pub buffer_len : ℕ
  pub finalized : Bool

unfoldable pub fresh : Sha
fresh = record {
  state = initial_state;
  buffer = replicate 64 0;
  total_bytes = 0;
  buffer_len = 0;
  finalized = false;
}

-- One pass of the loop of `update`.
unfoldable pub push_byte : Sha → ℕ → Sha
push_byte s byte =
    let buffer = set s.buffer s.buffer_len byte in
    let filled = record s {
      buffer = buffer;
      buffer_len = s.buffer_len + 1;
      total_bytes = u64 (s.total_bytes + 1);
    } in
    if s.buffer_len + 1 == 64
    then record filled { state = transform s.state buffer; buffer_len = 0 }
    else filled

unfoldable pub absorb : Sha → List ℕ → Sha
absorb s [] = s
absorb s (b ∷ bs) = absorb (push_byte s b) bs

unfoldable pub update : Sha → List ℕ → Option Sha
update s bytes = if s.finalized then none else some (absorb s bytes)

unfoldable pub clone : Sha → Sha
clone s = record {
  state = s.state;
  buffer = s.buffer;
  total_bytes = s.total_bytes;
  buffer_len = s.buffer_len;
  finalized = s.finalized;
}

-- `while (buffer_len_ != 56)`, one zero byte a round.
pub pad_zeros : ℕ → Sha → Sha
pad_zeros zero s = s
pad_zeros (suc fuel) s = elim (s.buffer_len == 56) [
  | true ↦ s
  | false ↦ pad_zeros fuel (absorb s (0 ∷ []))
]

-- The eight bytes of a `uint64_t`, highest first.
pub big_endian : ℕ → List ℕ
big_endian n =
    n / 2 ^ 56 % 256
    ∷ n / 2 ^ 48 % 256
    ∷ n / 2 ^ 40 % 256
    ∷ n / 2 ^ 32 % 256
    ∷ n / 2 ^ 24 % 256
    ∷ n / 2 ^ 16 % 256
    ∷ n / 2 ^ 8 % 256
    ∷ n % 256
    ∷ []

pub state_bytes : List ℕ → List ℕ
state_bytes [] = []
state_bytes (w ∷ ws) =
    w / 2 ^ 24 % 256 ∷ w / 2 ^ 16 % 256 ∷ w / 2 ^ 8 % 256 ∷ w % 256 ∷ state_bytes ws

-- The padding loop runs at most 64 rounds.
pub pad_and_finalize : Sha → Sha × List ℕ
pad_and_finalize s =
    let bit_len = u64 (s.total_bytes * 8) in
    let padded = pad_zeros 64 (absorb s (0x80 ∷ [])) in
    let s' = absorb padded (big_endian bit_len) in (s', state_bytes s'.state)

unfoldable pub finalize_hex : Sha → Option (Sha × List ℕ)
finalize_hex s =
    let (s', digest) = pad_and_finalize s in
    if s.finalized then none else some (record s' { finalized = true }, bytes_to_hex digest)

unfoldable pub hash_hex : List ℕ → Option (List ℕ)
hash_hex bytes = elim (update fresh bytes) [
  | none ↦ none
  | some s ↦ elim (finalize_hex s) [ none ↦ none | some (_, digest) ↦ some digest ]
]
