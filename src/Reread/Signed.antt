-- ===== src/Reread/Signed.antt =====
-- The comparison of a sample re-read where a plain `char` is signed.
use mavlink_companion_log_se.Base.{
  ℕ, zero, suc, ◌-◌, ◌*◌, ◌/◌, ◌≤◌, ◌<◌, ◌≡◌, refl, subst, List, [], ◌∷◌, Bool, true, false, ◌||◌,
  ◌==◌, ltb, leb, some, if◌then◌else◌, length, take, drop, arith, Bool-cases, inl, inr,
}
use mavlink_companion_log_se.Base.Bits.{u32}
use mavlink_companion_log_se.Base.Run.{Run, finished, fault, unfinished, Upto}
use mavlink_companion_log_se.Types.{Text, LogEntry, FcRereadMode}
use mavlink_companion_log_se.LogProtocol.{chunk_size, align_down_to_chunk}
use mavlink_companion_log_se.FcSample.{
  xorshift64, insert_offset, add_anchor, anchors, random_loop, build_fc_sample_offsets,
}
use mavlink_companion_log_se.LogDownloader.Inbox.{Inbox}
use mavlink_companion_log_se.Reread.{RereadSettings, Outside, verify_fc_reread}
use mavlink_companion_log_se.Reread.Sampled.{AllMatch, AllLow, PassesIf}
use mavlink_companion_log_se.Reread.Waited.{AllAsksCarry}
use mavlink_companion_log_se.Reread.Archived.{sampled, verify_fc_reread-AllMatch}

-- The first offset is 0.
abbrev FromZero : List ℕ → Type 0
FromZero [] = ⊥
FromZero (x ∷ xs) = x ≡ 0

FromZero-if :
    (b : Bool) (xs ys : List ℕ) → FromZero xs → FromZero ys → FromZero (if b then xs else ys)
FromZero-if true xs ys f g = f
FromZero-if false xs ys f g = g

FromZero-insert : (x : ℕ) (xs : List ℕ) → FromZero xs → FromZero (insert_offset x xs)
unfolding insert_offset
FromZero-insert x [] f = elim f [ ]
FromZero-insert x (y ∷ ys) f = elim (Bool-cases (ltb x y)) [
  | inl below ↦ absurd (ground arith)
  | inr above ↦
      rw (above, FromZero, insert_offset)
        (FromZero-if (x == y) (y ∷ ys) (y ∷ insert_offset x ys) f f)
]

FromZero-add_anchor :
    (size offset : ℕ) (xs : List ℕ) → FromZero xs → FromZero (add_anchor size offset xs)
unfolding add_anchor
FromZero-add_anchor size offset xs f = FromZero-if (ltb size chunk_size) xs _ f (
    FromZero-if (leb offset (size - chunk_size)) (insert_offset (align_down_to_chunk offset) xs) xs
      (FromZero-insert (align_down_to_chunk offset) xs f) f)

FromZero-start : (size : ℕ) → chunk_size ≤ size → FromZero (add_anchor size 0 [])
unfolding add_anchor align_down_to_chunk insert_offset
FromZero-start size big =
    let whole : ltb size chunk_size ≡ false = ground arith in
    let low : leb 0 (size - chunk_size) ≡ true = ground arith in
    rw (whole, FromZero, add_anchor) (rw (low, FromZero, add_anchor) refl)

FromZero-anchors : (size : ℕ) → chunk_size ≤ size → FromZero (anchors size)
unfolding anchors
FromZero-anchors size big =
    let start = FromZero-add_anchor size (u32 (3 * size) / 4) _ (
      FromZero-add_anchor size (size / 2) _ (
        FromZero-add_anchor size (size / 4) _
          (FromZero-add_anchor size chunk_size _ (FromZero-start size big)))) in
    FromZero-add_anchor size (size - chunk_size) _ (
      FromZero-if (leb (2 * chunk_size) size) _ _
        (FromZero-add_anchor size (size - 2 * chunk_size) _ start) start)

FromZero-random_loop :
    (attempts total max_slot rng : ℕ) (xs : List ℕ)
    → FromZero xs
    → FromZero (random_loop attempts total max_slot rng xs)
unfolding random_loop
FromZero-random_loop zero total max_slot rng xs f = f
FromZero-random_loop (suc n) total max_slot rng xs f =
    FromZero-if (ltb (length xs) total) _ xs
      (FromZero-random_loop n total max_slot (xorshift64 rng) _ (FromZero-insert _ xs f)) f

FromZero-take : (n : ℕ) (xs : List ℕ) → 0 < n → FromZero xs → FromZero (take n xs)
FromZero-take zero xs h f = absurd (omega arith)
FromZero-take (suc n) [] h f = f
FromZero-take (suc n) (x ∷ xs) h f = f

FromZero-build :
    (size total id fc_size : ℕ) (sha256 : Text)
    → chunk_size ≤ size
    → 0 < total
    → FromZero (build_fc_sample_offsets size total id fc_size sha256)
unfolding build_fc_sample_offsets
FromZero-build size total id fc_size sha256 big some_samples =
    let some_left : (ltb size chunk_size || total == 0) ≡ false = ground arith in
    rw (some_left, FromZero, build_fc_sample_offsets)
      (FromZero-take total _ some_samples
        (FromZero-random_loop _ total _ _ (anchors size) (FromZero-anchors size big)))

passes_not :
    (P : Type 0) (r : Run (Inbox × Bool))
    → (P → ⊥)
    → PassesIf P r
    → Upto (Unit {0}) (λ (e : Inbox × Bool). e.1 ≡ false) r
passes_not P (finished (q, true)) contra f = absurd (contra (f refl))
passes_not P (finished (q, false)) contra f = refl
passes_not P fault contra f = f
passes_not P unfinished contra f = tt

not_low :
    (log : ℕ → ℕ) (b : ℕ) (bs xs : List ℕ)
    → 128 ≤ b
    → FromZero xs
    → AllMatch log true (b ∷ bs) xs
    → ⊥
not_low log b bs [] high f m = f
not_low log b bs (x ∷ xs) high f m =
    let low : AllLow (take chunk_size (drop 0 (b ∷ bs))) =
      subst (λ n. AllLow (take chunk_size (drop n (b ∷ bs)))) f (m.0.2 refl) in
    omega (arith, low.0)

-- Where a plain `char` is signed, the re-read samples at least one offset and its answers carry bytes of the log:
-- the re-read of a log of a chunk or more has no fault, and it passes on no file that begins with a byte from 128
-- on, be it equal to the log or not.
pub verify_fc_reread_signed :
    (log : ℕ → ℕ) (cfg : RereadSettings) (entry : LogEntry) (sha256 : Text) (o : Outside) (b : ℕ)
    (bs : List ℕ) (q : Inbox)
    → o.signed_char ≡ true
    → cfg.verify_fc_reread ≡ FcRereadMode.sample
    → 0 < cfg.sample_count
    → chunk_size ≤ entry.size
    → AllAsksCarry log entry.id o.asks
    → o.file ≡ some (b ∷ bs)
    → 128 ≤ b
    → Upto (Unit {0}) (λ (e : Inbox × Bool). e.1 ≡ false) (verify_fc_reread cfg entry sha256 o q)
verify_fc_reread_signed log cfg entry sha256 o b bs q signed mode some_samples big carry opens
      high =
    passes_not (AllMatch log o.signed_char (b ∷ bs) (sampled cfg entry sha256))
      (verify_fc_reread cfg entry sha256 o q)
      (λ m.
        not_low log b bs (sampled cfg entry sha256) high
          (FromZero-build entry.size cfg.sample_count entry.id entry.size sha256 big some_samples)
          (subst (λ c. AllMatch log c (b ∷ bs) (sampled cfg entry sha256)) signed m))
      (verify_fc_reread-AllMatch log cfg entry sha256 o (b ∷ bs) q mode carry opens)
