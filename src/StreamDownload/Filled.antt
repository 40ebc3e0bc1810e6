-- ===== src/StreamDownload/Filled.antt =====
-- What a download has written to its file.
use mavlink_companion_log_se.Base.{
  ℕ, zero, suc, ◌+◌, ◌-◌, ◌^◌, ◌≤◌, ◌<◌, ◌≡◌, refl, sym, ap, ◌∙◌, subst, List, [], ◌∷◌, Bool, true,
  false, ◌&&◌, ◌||◌, not, ◌==◌, ltb, leb, Option, none, some, if◌then◌else◌, length, get_elem?,
  take, length-take, arith, inl, inr, ◌⊎◌, Bool-cases,
}
use mavlink_companion_log_se.ReceivedRanges.{covers, IsMerged, complete, bytes_received}
use mavlink_companion_log_se.ReceivedRanges.Bytes.{bytes_received-le}
use mavlink_companion_log_se.ReceivedRanges.Merge.{add-IsMerged, covers-add}
use mavlink_companion_log_se.ReceivedRanges.Gaps.{complete-covers, covers-nil}
use mavlink_companion_log_se.Sha256.Stream.{absorb-finalized}
use mavlink_companion_log_se.Sha256.{fresh}
use mavlink_companion_log_se.Coverage.{tracker_for}
use mavlink_companion_log_se.LogDownloader.Inbox.{LogDataChunk}
use mavlink_companion_log_se.StreamDownload.{
  Params, Write, Stream, new_stream, end_offset, write_length, process_chunks,
}
use mavlink_companion_log_se.StreamDownload.Taken.{
  written, file_with, Taken, went, stopped, process_chunk-Processed,
}
use mavlink_companion_log_se.StreamDownload.Hashed.{process_chunks-went, process_chunks-stopped}

-- The byte of a file at an offset, from the last write to it.
unfoldable pub read_at : List Write → ℕ → Option ℕ
read_at [] x = none
read_at (w ∷ ws) x =
    if leb w.offset x && ltb x (w.offset + length w.bytes)
    then get_elem? w.bytes (x - w.offset)
    else read_at ws x

-- A chunk carries bytes of the log, in the 32-bit range.
pub record IsOf (log : ℕ → ℕ) (c : LogDataChunk) : Type 0 where
  pub len : length c.bytes ≡ c.count
  pub range : c.offset + c.count < 2 ^ 32
  pub data' : (i : ℕ) → i < c.count → get_elem? c.bytes i ≡ some (log (c.offset + i))

abbrev pub AllOf : (ℕ → ℕ) → List LogDataChunk → Type 0
AllOf log [] = Unit {0}
AllOf log (c ∷ cs) = IsOf log c × AllOf log cs

-- What has been received is in the file, and is of what was asked for.
pub record Holds (log : ℕ → ℕ) (p : Params) (s : Stream) : Type 0 where
  pub merged : IsMerged s.ranges
  pub open' : s.hasher.finalized ≡ false
  pub clean : s.coverage.overlap_conflicts ≡ 0
  pub inside : (x : ℕ) → covers s.ranges x ≡ true → x < end_offset p
  pub filled : (x : ℕ) → covers s.ranges x ≡ true → read_at s.file x ≡ some (log x)

write_length-le :
    (p : Params) (c : LogDataChunk) → c.offset + c.count < 2 ^ 32 → write_length p c ≤ c.count
unfolding write_length
write_length-le p c h = ground arith

pub get_elem?-take :
    {A : Type 0} (n i : ℕ) (xs : List A) → i < n → get_elem? (take n xs) i ≡ get_elem? xs i
get_elem?-take zero i xs h = absurd (omega arith)
get_elem?-take (suc n) i [] h = refl
get_elem?-take (suc n) zero (x ∷ xs) h = refl
get_elem?-take (suc n) (suc i) (x ∷ xs) h = get_elem?-take n i xs (omega arith)

-- A byte of the log at its place in a chunk.
read_chunk :
    (log : ℕ → ℕ) (p : Params) (c : LogDataChunk) (x : ℕ)
    → IsOf log c
    → c.offset ≤ x
    → x < c.offset + write_length p c
    → get_elem? (written p c) (x - c.offset) ≡ some (log x)
read_chunk log p c x of from to =
    let le = write_length-le p c of.range in
    let at : c.offset + (x - c.offset) ≡ x = omega arith in
    get_elem?-take (write_length p c) (x - c.offset) c.bytes (omega arith)
    ∙ of.data' (x - c.offset) (omega arith)
    ∙ ap (λ y. some (log y)) at

-- The bytes of the chunk that are written, as a test.
abbrev in_chunk : Params → LogDataChunk → ℕ → Bool
in_chunk p c x = leb c.offset x && ltb x (c.offset + write_length p c)

length-written :
    (log : ℕ → ℕ) (p : Params) (c : LogDataChunk)
    → IsOf log c
    → length (written p c) ≡ write_length p c
length-written log p c of =
    omega (arith, length-take (write_length p c) c.bytes, of.len, write_length-le p c of.range)

read_at-write :
    (log : ℕ → ℕ) (p : Params) (c : LogDataChunk) (file : List Write) (x : ℕ)
    → IsOf log c
    → (read_at file x ≡ some (log x)) ⊎ (in_chunk p c x ≡ true)
    → read_at (record { offset = c.offset; bytes = written p c } ∷ file) x ≡ some (log x)
unfolding read_at
read_at-write log p c file x of h =
    rw (length-written log p c of) (by_range (in_chunk p c x) refl h)
  where
    by_range :
        (b : Bool)
        → in_chunk p c x ≡ b
        → (read_at file x ≡ some (log x)) ⊎ (in_chunk p c x ≡ true)
        → (if b then get_elem? (written p c) (x - c.offset) else read_at file x) ≡ some (log x)
    by_range true e h = read_chunk log p c x of (ground arith) (ground arith)
    by_range false e (inl old) = old
    by_range false e (inr now) = absurd (cc (sym e ∙ now))

read_file_with :
    (log : ℕ → ℕ) (p : Params) (c : LogDataChunk) (file : List Write) (x : ℕ)
    → p.write_file ≡ true
    → IsOf log c
    → (read_at file x ≡ some (log x)) ⊎ (in_chunk p c x ≡ true)
    → read_at (file_with p c file) x ≡ some (log x)
read_file_with log p c file x writes of h = elim (Bool-cases (write_length p c == 0)) [
  | inl empty ↦
      let shut : (p.write_file && not (write_length p c == 0)) ≡ false = ground arith in
      rw shut (elim h [ inl old ↦ old | inr now ↦ absurd (ground arith) ])
  | inr some_bytes ↦
      let opens : (p.write_file && not (write_length p c == 0)) ≡ true = ground arith in
      rw opens (read_at-write log p c file x of h)
]

in_chunk-inside :
    (p : Params) (c : LogDataChunk) (x : ℕ)
    → c.offset + c.count < 2 ^ 32
    → in_chunk p c x ≡ true
    → x < end_offset p
unfolding write_length
in_chunk-inside p c x range now = ground arith

Holds-Taken :
    (log : ℕ → ℕ) (p : Params) (c : LogDataChunk) (s s' : Stream)
    → p.write_file ≡ true
    → IsOf log c
    → Taken p c s s'
    → Holds log p s
    → Holds log p s'
Holds-Taken log p c s s' writes of taken holds =
    let le = write_length-le p c of.range in
    let range : c.offset + write_length p c < 2 ^ 32 = omega (arith, of.range) in
    record {
      merged =
          subst IsMerged (sym taken.ranges)
            (add-IsMerged s.ranges c.offset (write_length p c) holds.merged range);
      open' =
          ap (λ h. h.finalized) taken.hasher
          ∙ absorb-finalized s.hasher (written p c)
          ∙ holds.open';
      clean = taken.clean holds.clean;
      inside = λ x covered.
          elim (either x (
            sym (covers-add s.ranges c.offset (write_length p c) x holds.merged range)
            ∙ ap (λ r. covers r x) (sym taken.ranges)
            ∙ covered)) [
              | inl old ↦ holds.inside x old
              | inr now ↦ in_chunk-inside p c x of.range now
            ];
      filled = λ x covered.
          ap (λ f. read_at f x) taken.file
          ∙ read_file_with log p c s.file x writes of
              (elim (either x (
                sym (covers-add s.ranges c.offset (write_length p c) x holds.merged range)
                ∙ ap (λ r. covers r x) (sym taken.ranges)
                ∙ covered)) [ inl old ↦ inl (holds.filled x old) | inr now ↦ inr now ]);
    }
  where
    either :
        (x : ℕ)
        → (covers s.ranges x || in_chunk p c x) ≡ true
        → (covers s.ranges x ≡ true) ⊎ (in_chunk p c x ≡ true)
    either x e = elim (Bool-cases (covers s.ranges x)) [
      | inl old ↦ inl old
      | inr new ↦ inr (ground arith)
    ]

pub process_chunks-Holds :
    (log : ℕ → ℕ) (p : Params) (cs : List LogDataChunk) (s : Stream)
    → p.write_file ≡ true
    → AllOf log cs
    → Holds log p s
    → (r : Stream × Bool) × (process_chunks p cs s ≡ some r) × ((r.1 ≡ false) ⊎ Holds log p r.0)
unfolding process_chunks
process_chunks-Holds log p [] s writes of holds = ((s, true), refl, inr holds)
process_chunks-Holds log p (c ∷ cs) s writes of holds =
    elim (process_chunk-Processed p c s holds.open') [
      | stopped s' done ↦ ((s', false), process_chunks-stopped p c cs s s' done, inl refl)
      | went s' done taken ↦
          let (r, rest, verdict) =
            process_chunks-Holds log p cs s' writes of.1
              (Holds-Taken log p c s s' writes of.0 taken holds) in
          (r, process_chunks-went p c cs s s' done ∙ rest, verdict)
    ]

pub new_stream-Holds : (log : ℕ → ℕ) (p : Params) (total : ℕ) → Holds log p (new_stream total)
unfolding new_stream fresh tracker_for
new_stream-Holds log p total = record {
  merged = tt;
  open' = refl;
  clean = refl;
  inside = λ y c. absurd (cc (sym (covers-nil y) ∙ c));
  filled = λ y c. absurd (cc (sym (covers-nil y) ∙ c));
}

-- However the chunks of a log are ordered, repeated or cut: unless an overlap conflict stops the
-- processing, each byte that the received ranges cover stands in the file as it is in the log, and so does
-- each byte below the total once the ranges are complete.
pub process_chunks_file :
    (log : ℕ → ℕ) (p : Params) (cs : List LogDataChunk) (total x : ℕ)
    → p.write_file ≡ true
    → AllOf log cs
    → x < total
    → (r : Stream × Bool) × (process_chunks p cs (new_stream total) ≡ some r)
      × ((r.1 ≡ false)
          ⊎ (((covers r.0.ranges x ≡ false) ⊎ (read_at r.0.file x ≡ some (log x)))
              × ((complete r.0.ranges total ≡ false) ⊎ (read_at r.0.file x ≡ some (log x)))))
process_chunks_file log p cs total x writes of lt =
    let start = new_stream-Holds log p total in
    let (r, done, verdict) = process_chunks-Holds log p cs (new_stream total) writes of start in
    (r, done, elim verdict [ inl stop ↦ inl stop | inr holds ↦ inr (told r.0 holds) ])
  where
    told :
        (s : Stream)
        → Holds log p s
        → ((covers s.ranges x ≡ false) ⊎ (read_at s.file x ≡ some (log x)))
          × ((complete s.ranges total ≡ false) ⊎ (read_at s.file x ≡ some (log x)))
    told s holds = (
      elim (Bool-cases (covers s.ranges x)) [ inl c ↦ inr (holds.filled x c) | inr out ↦ inl out ],
      elim (Bool-cases (complete s.ranges total)) [
        | inl all ↦ inr (holds.filled x (complete-covers s.ranges total x all lt))
        | inr part ↦ inl part
      ],
    )

-- Not more bytes are received than were asked for.
pub received-le :
    (log : ℕ → ℕ) (p : Params) (s : Stream) → Holds log p s → bytes_received s.ranges ≤ end_offset p
unfolding end_offset
received-le log p s holds =
    bytes_received-le s.ranges (end_offset p) holds.merged holds.inside (end_offset-small p)
  where
    end_offset-small : (p : Params) → end_offset p < 2 ^ 32
    end_offset-small p = omega arith
