-- ===== src/StreamDownload.antt =====
-- src/StreamDownloadSession.cpp: `processQueuedChunks`, what becomes of the chunks of LOG_DATA that have
-- arrived. The file is the list of the writes made to it, the last first. An exception of the hasher
-- is `none`. The counters of metrics other than duplicates are left out.
pub mod Taken
pub mod Hashed
pub mod Filled
pub mod Requests
mod Begins
pub mod Session
mod Examples
use mavlink_companion_log_se.Base.{
  ℕ, ◌+◌, ◌-◌, ◌%◌, ◌^◌, List, [], ◌∷◌, Bool, true, false, ◌&&◌, ◌||◌, not, ◌==◌, ltb, leb, Option,
  none, some, if◌then◌else◌, take, drop,
}
use mavlink_companion_log_se.Base.Bits.{u32}
use mavlink_companion_log_se.Types.{Text}
use mavlink_companion_log_se.LogProtocol.{chunk_size}
use mavlink_companion_log_se.ReceivedRanges.{Span, add}
use mavlink_companion_log_se.Coverage.{Tracker, tracker_for, record_chunk}
use mavlink_companion_log_se.Sha256.{Sha, fresh, update, clone, finalize_hex}
use mavlink_companion_log_se.LogDownloader.Inbox.{LogDataChunk}
use mavlink_companion_log_se.LogDownloader.Archive.{probe_length}

pub record Params : Type 0 where
  pub byte_offset : ℕ
  pub byte_count : ℕ
  pub probe_bytes : ℕ
  pub write_file : Bool
  pub detect_overlap_conflict : Bool

pub record Write : Type 0 where
  pub offset : ℕ
  pub bytes : List ℕ

pub record Stream : Type 0 where
  pub file : List Write
  pub ranges : List Span
  pub coverage : Tracker
  pub hasher : Sha
  pub probe_finalized : Bool
  pub hashed_bytes : ℕ
  pub probe_sha256 : Text
  pub saw_short_eof : Bool
  pub duplicate_packets : ℕ

-- The locals of `run` before its loop.
unfoldable pub new_stream : ℕ → Stream
new_stream total = record {
  file = [];
  ranges = [];
  coverage = tracker_for total;
  hasher = fresh;
  probe_finalized = false;
  hashed_bytes = 0;
  probe_sha256 = [];
  saw_short_eof = false;
  duplicate_packets = 0;
}

unfoldable pub end_offset : Params → ℕ
end_offset p = u32 (p.byte_offset + p.byte_count)

-- The length to write, cut at the end of what was asked for; 0 for a chunk outside of it.
unfoldable pub write_length : Params → LogDataChunk → ℕ
write_length p c =
    if ltb c.offset p.byte_offset || leb (end_offset p) c.offset
    then 0
    else if ltb (end_offset p) (u32 (c.offset + c.count))
    then end_offset p - c.offset
    else c.count

unfoldable pub write_chunk : Params → LogDataChunk → ℕ → Stream → Stream
write_chunk p c len s =
    if p.write_file
    then record s { file = record { offset = c.offset; bytes = take len c.bytes } ∷ s.file }
    else s

unfoldable pub count_duplicate : ℕ → LogDataChunk → Stream → Stream
count_duplicate slots_before c s =
    if s.coverage.slots_received == slots_before && c.offset % chunk_size == 0
    then record s { duplicate_packets = s.duplicate_packets + 1 }
    else s

-- The chunk that completes the probe: its bytes up to there, the digest of a clone, and the rest.
unfoldable pub finalize_probe : ℕ → List ℕ → Stream → Option Stream
finalize_probe probe_take bytes s = elim (update s.hasher (take probe_take bytes)) [
  | none ↦ none
  | some probed ↦ elim (finalize_hex (clone probed)) [
    | none ↦ none
    | some (_, digest) ↦ elim (update probed (drop probe_take bytes)) [
      | none ↦ none
      | some h ↦ some (record s { hasher = h; probe_finalized = true; probe_sha256 = digest })
    ]
  ]
]

unfoldable pub hash_chunk : Params → List ℕ → ℕ → Stream → Option Stream
hash_chunk p bytes len s =
    let probe_n = probe_length p.probe_bytes p.byte_count in
    if not s.probe_finalized && leb probe_n (u32 (s.hashed_bytes + len))
    then finalize_probe (u32 (probe_n + 2 ^ 32 - s.hashed_bytes)) bytes s
    else elim (update s.hasher bytes) [ none ↦ none | some h ↦ some (record s { hasher = h }) ]

-- The end of the loop's body.
unfoldable pub note_range : Params → ℕ → ℕ → Stream → Stream
note_range p offset len s = record s {
  hashed_bytes = u32 (s.hashed_bytes + len);
  ranges = add s.ranges offset len;
  saw_short_eof = s.saw_short_eof || (ltb len chunk_size && u32 (offset + len) == end_offset p);
}

-- What happens once the chunk is recorded.
unfoldable pub keep_chunk : Params → LogDataChunk → ℕ → ℕ → Stream → Option Stream
keep_chunk p c len slots_before s =
    elim (hash_chunk p (take len c.bytes) len (count_duplicate slots_before c s)) [
      | none ↦ none
      | some s' ↦ some (note_range p c.offset len s')
    ]

-- One chunk: the new state, and whether the loop goes on.
unfoldable pub process_chunk : Params → LogDataChunk → Stream → Option (Stream × Bool)
process_chunk p c s =
    let len = write_length p c in
    let written = write_chunk p c len s in
    let (coverage, fine) =
      record_chunk s.coverage c.offset (some (take len c.bytes)) len p.detect_overlap_conflict in
    let recorded = record written { coverage = coverage } in
    if len == 0
    then some (s, true)
    else if not fine
    then some (recorded, false)
    else elim (keep_chunk p c len s.coverage.slots_received recorded) [
      | none ↦ none
      | some s' ↦ some (s', true)
    ]

unfoldable pub process_chunks : Params → List LogDataChunk → Stream → Option (Stream × Bool)
process_chunks p [] s = some (s, true)
process_chunks p (c ∷ cs) s = elim (process_chunk p c s) [
  | none ↦ none
  | some (s', false) ↦ some (s', false)
  | some (s', true) ↦ process_chunks p cs s'
]
