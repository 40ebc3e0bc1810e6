-- ===== src/StreamDownload/Taken.antt =====
-- What one chunk does to the state of a download.
use mavlink_companion_log_se.Base.{
  ℕ, ◌+◌, ◌≡◌, refl, sym, ap, ◌∙◌, List, ◌∷◌, Bool, true, false, ◌&&◌, not, ◌==◌, leb, Option, none,
  some, if◌then◌else◌, take, drop, take-append-drop, ==_iff, arith, Bool-cases, inl, inr,
}
use mavlink_companion_log_se.Base.Bits.{u32}
use mavlink_companion_log_se.ReceivedRanges.{add}
use mavlink_companion_log_se.Coverage.{Tracker, record_chunk, mark_slot}
use mavlink_companion_log_se.Sha256.{Sha, update, clone, finalize_hex, absorb}
use mavlink_companion_log_se.Sha256.Stream.{absorb-nil, absorb-append, absorb-finalized}
use mavlink_companion_log_se.LogDownloader.Inbox.{LogDataChunk}
use mavlink_companion_log_se.LogDownloader.Archive.{probe_length}
use mavlink_companion_log_se.StreamDownload.{
  Params, Write, Stream, write_length, write_chunk, count_duplicate, finalize_probe, hash_chunk,
  note_range, keep_chunk, process_chunk,
}

update-open :
    (h : Sha) (bytes : List ℕ) → h.finalized ≡ false → update h bytes ≡ some (absorb h bytes)
unfolding update
update-open h bytes e = rw e refl

pub finalize-open : (h : Sha) → h.finalized ≡ false → (r : Sha × List ℕ) × (finalize_hex h ≡ some r)
unfolding finalize_hex
finalize-open h e = rw e (_, refl)

pub clone-open :
    (h : Sha) → h.finalized ≡ false → (r : Sha × List ℕ) × (finalize_hex (clone h) ≡ some r)
unfolding finalize_hex clone
clone-open h e = rw e (_, refl)

-- The state of the hasher after some bytes; of the rest of the state only what concerns the probe changes.
pub record Hashes (s s' : Stream) (bytes : List ℕ) : Type 0 where
  pub hasher : s'.hasher ≡ absorb s.hasher bytes
  pub file : s'.file ≡ s.file
  pub ranges : s'.ranges ≡ s.ranges
  pub coverage : s'.coverage ≡ s.coverage

finalize_probe-Hashes :
    (k : ℕ) (bytes : List ℕ) (s : Stream)
    → s.hasher.finalized ≡ false
    → (s' : Stream) × (finalize_probe k bytes s ≡ some s') × Hashes s s' bytes
unfolding finalize_probe clone-open
finalize_probe-Hashes k bytes s e =
    let probed = absorb s.hasher (take k bytes) in
    let open' : probed.finalized ≡ false = absorb-finalized s.hasher (take k bytes) ∙ e in
    let (r, cloned) = clone-open probed open' in
    let whole : absorb probed (drop k bytes) ≡ absorb s.hasher bytes =
      sym (absorb-append s.hasher (take k bytes) (drop k bytes))
      ∙ ap (absorb s.hasher) (take-append-drop k bytes) in
    (
      record s {
        hasher = absorb probed (drop k bytes);
        probe_finalized = true;
        probe_sha256 = r.1;
      },
      rw
          (
            update-open s.hasher (take k bytes) e,
            cloned,
            update-open probed (drop k bytes) open',
            finalize_probe,
          )
          refl,
      record { hasher = whole; file = refl; ranges = refl; coverage = refl },
    )

hash_chunk-Hashes :
    (p : Params) (bytes : List ℕ) (len : ℕ) (s : Stream)
    → s.hasher.finalized ≡ false
    → (s' : Stream) × (hash_chunk p bytes len s ≡ some s') × Hashes s s' bytes
unfolding hash_chunk
hash_chunk-Hashes p bytes len s e =
    elim (Bool-cases (
      not s.probe_finalized
      && leb (probe_length p.probe_bytes p.byte_count) (u32 (s.hashed_bytes + len)))) [
        | inl here ↦ rw (here, hash_chunk) (finalize_probe-Hashes _ bytes s e)
        | inr later ↦ (
          record s { hasher = absorb s.hasher bytes },
          rw (later, update-open s.hasher bytes e, hash_chunk) refl,
          record { hasher = refl; file = refl; ranges = refl; coverage = refl },
        )
      ]

-- The bytes of a chunk that are kept.
abbrev pub written : Params → LogDataChunk → List ℕ
written p c = take (write_length p c) c.bytes

-- The file with a chunk written.
abbrev pub file_with : Params → LogDataChunk → List Write → List Write
file_with p c file =
    if p.write_file && not (write_length p c == 0)
    then record { offset = c.offset; bytes = written p c } ∷ file
    else file

-- A chunk that the loop goes on from.
pub record Taken (p : Params) (c : LogDataChunk) (s s' : Stream) : Type 0 where
  pub hasher : s'.hasher ≡ absorb s.hasher (written p c)
  pub ranges : s'.ranges ≡ add s.ranges c.offset (write_length p c)
  pub file : s'.file ≡ file_with p c s.file
  pub clean : s.coverage.overlap_conflicts ≡ 0 → s'.coverage.overlap_conflicts ≡ 0

pub data Processed (p : Params) (c : LogDataChunk) (s : Stream) (r : Option (Stream × Bool))
    : Type 0 where
  went : (s' : Stream) → r ≡ some (s', true) → Taken p c s s' → Processed p c s r
  stopped : (s' : Stream) → r ≡ some (s', false) → Processed p c s r

count_duplicate_same :
    (before : ℕ) (c : LogDataChunk) (s : Stream)
    → let s' = count_duplicate before c s in
      (s'.hasher ≡ s.hasher)
      × (s'.ranges ≡ s.ranges)
      × (s'.file ≡ s.file)
      × (s'.coverage ≡ s.coverage)
unfolding count_duplicate
count_duplicate_same before c s = (ground arith, ground arith, ground arith, ground arith)

keep_chunk-Taken :
    (p : Params) (c : LogDataChunk) (before : ℕ) (s s0 : Stream)
    → s.hasher.finalized ≡ false
    → s.hasher ≡ s0.hasher
    → s.ranges ≡ s0.ranges
    → s.file ≡ file_with p c s0.file
    → (s0.coverage.overlap_conflicts ≡ 0 → s.coverage.overlap_conflicts ≡ 0)
    → (s' : Stream) × (keep_chunk p c (write_length p c) before s ≡ some s') × Taken p c s0 s'
unfolding keep_chunk note_range
keep_chunk-Taken p c before s s0 e hasher ranges file clean =
    let counted = count_duplicate before c s in
    let (same, same_ranges, same_file, same_coverage) = count_duplicate_same before c s in
    let open' : counted.hasher.finalized ≡ false = ap (λ h. h.finalized) same ∙ e in
    let (s', done, h) = hash_chunk-Hashes p (written p c) (write_length p c) counted open' in
    (
      note_range p c.offset (write_length p c) s',
      ap (λ r. elim r [ none ↦ none | some x ↦ some (note_range p c.offset (write_length p c) x) ])
          done,
      record {
        hasher = h.hasher ∙ ap (λ x. absorb x (written p c)) (same ∙ hasher);
        ranges = ap (λ x. add x c.offset (write_length p c)) (h.ranges ∙ same_ranges ∙ ranges);
        file = h.file ∙ same_file ∙ file;
        clean = λ none_before.
            ap (λ t. t.overlap_conflicts) (h.coverage ∙ same_coverage) ∙ clean none_before;
      },
    )

pick-true {ℓ} : {A : Type ℓ} (b : Bool) (x y : A) → b ≡ true → (if b then x else y) ≡ x
pick-true true x y e = refl
pick-true false x y e = absurd cc

pub pick-false {ℓ} : {A : Type ℓ} (b : Bool) (x y : A) → b ≡ false → (if b then x else y) ≡ y
pick-false true x y e = absurd cc
pick-false false x y e = refl

-- A chunk outside of what was asked for changes nothing.
outside-Taken :
    (p : Params) (c : LogDataChunk) (s : Stream) → write_length p c == 0 ≡ true → Taken p c s s
unfolding add
outside-Taken p c s outside =
    let none_left : write_length p c ≡ 0 = (==_iff (write_length p c) 0).0 outside in
    record {
      hasher = sym (ap (λ n. absorb s.hasher (take n c.bytes)) none_left ∙ absorb-nil s.hasher);
      ranges = sym (ap (λ n. add s.ranges c.offset n) none_left);
      file = sym (
          pick-false (p.write_file && not (write_length p c == 0))
            (record { offset = c.offset; bytes = written p c } ∷ s.file) s.file (ground arith));
      clean = λ none_before. none_before;
    }

write_chunk_file :
    (p : Params) (c : LogDataChunk) (s : Stream)
    → write_length p c == 0 ≡ false
    → let s' = write_chunk p c (write_length p c) s in
      (s'.hasher ≡ s.hasher) × (s'.ranges ≡ s.ranges) × (s'.file ≡ file_with p c s.file)
unfolding write_chunk
write_chunk_file p c s inside = (ground arith, ground arith, ground arith)

-- A chunk that is not refused leaves the counter of conflicts at 0.
record_chunk-clean :
    (t : Tracker) (offset : ℕ) (bytes : List ℕ) (count : ℕ) (detect : Bool)
    → t.overlap_conflicts ≡ 0
    → (record_chunk t offset (some bytes) count detect).1 ≡ true
    → (record_chunk t offset (some bytes) count detect).0.overlap_conflicts ≡ 0
unfolding record_chunk mark_slot
record_chunk-clean t offset bytes count detect e fine = ground arith

pub process_chunk-Processed :
    (p : Params) (c : LogDataChunk) (s : Stream)
    → s.hasher.finalized ≡ false
    → Processed p c s (process_chunk p c s)
unfolding process_chunk
process_chunk-Processed p c s e =
    let len = write_length p c in
    let coverage =
      record_chunk s.coverage c.offset (some (written p c)) len p.detect_overlap_conflict in
    let recorded = record (write_chunk p c len s) { coverage = coverage.0 } in
    elim (Bool-cases (len == 0)) [
      | inl outside ↦ went s (pick-true (len == 0) _ _ outside) (outside-Taken p c s outside)
      | inr inside ↦
          let (hasher, ranges, file) = write_chunk_file p c s inside in
          elim (Bool-cases coverage.1) [
            | inl fine ↦
                let (s', done, taken) =
                  keep_chunk-Taken p c s.coverage.slots_received recorded s
                    (ap (λ h. h.finalized) hasher ∙ e) hasher ranges file
                    (λ none_before.
                      record_chunk-clean s.coverage c.offset (written p c) len
                        p.detect_overlap_conflict none_before fine) in
                went s'
                  (pick-false (len == 0) _ _ inside
                    ∙ pick-false (not coverage.1) _ _ (ap not fine)
                    ∙ ap (λ r. elim r [ none ↦ none | some x ↦ some (x, true) ]) done)
                  taken
            | inr conflict ↦ stopped recorded (
                pick-false (len == 0) _ _ inside ∙ pick-true (not coverage.1) _ _ (ap not conflict))
          ]
    ]
