-- ===== src/Coverage.antt =====
-- src/ChunkCoverageTracker.cpp: which chunk slots of a log have arrived, as a bitmap, with a
-- fingerprint of each slot's bytes. A pointer to data is an optional buffer, `none` for `nullptr`.
mod Bitmap
pub mod Invariant
mod Examples
use mavlink_companion_log_se.Base.{
  ℕ, ◌+◌, ◌-◌, ◌/◌, ◌%◌, ◌^◌, min, bit_and, bit_or, List, ◌++◌, Bool, true, Option, none, some,
  ◌&&◌, ◌||◌, not, ltb, leb, ◌==◌, if◌then◌else◌, length, get_or, set, take, replicate,
}
use mavlink_companion_log_se.Base.Bits.{u32}
use mavlink_companion_log_se.LogProtocol.{chunk_size, chunk_slot_index, chunk_count_for_size}
use mavlink_companion_log_se.Crc32.{crc32}

abbrev empty_fingerprint : ℕ
empty_fingerprint = 0

unfoldable pub bitmap_test : List ℕ → ℕ → Bool
bitmap_test bitmap slot =
    ltb (slot / 8) (length bitmap)
    && not (bit_and (get_or bitmap (slot / 8) 0) (2 ^ (slot % 8)) == 0)

unfoldable pub bitmap_set : List ℕ → ℕ → List ℕ
bitmap_set bitmap slot =
    if ltb (slot / 8) (length bitmap)
    then set bitmap (slot / 8) (bit_or (get_or bitmap (slot / 8) 0) (2 ^ (slot % 8)))
    else bitmap

-- The bytes are padded with zeros to a chunk, and 0 is kept for an empty slot.
pub fingerprint_for_slot : List ℕ → ℕ → ℕ
unfolding crc32
fingerprint_for_slot bytes count =
    let used = min count chunk_size in
    let fp = crc32 (take used bytes ++ replicate (chunk_size - used) 0) 0 in
    if fp == empty_fingerprint then 1 else fp

pub record Tracker : Type 0 where
  pub total_size : ℕ
  pub slot_count : ℕ
  pub slots_received : ℕ
  pub overlap_conflicts : ℕ
  pub bitmap : List ℕ
  pub fingerprints : List ℕ

unfoldable pub tracker_for : ℕ → Tracker
unfolding chunk_count_for_size
tracker_for total_size =
    let slot_count = chunk_count_for_size total_size in
    record {
      total_size = total_size;
      slot_count = slot_count;
      slots_received = 0;
      overlap_conflicts = 0;
      bitmap = replicate (u32 (slot_count + 7) / 8) 0;
      fingerprints = replicate slot_count empty_fingerprint;
    }

unfoldable pub mark_slot : Tracker → ℕ → ℕ → Bool → Tracker
unfolding bitmap_test bitmap_set
mark_slot t slot fingerprint detect_overlap =
    let was_set = bitmap_test t.bitmap slot in
    let differs = not (get_or t.fingerprints slot 0 == fingerprint) in
    let conflict = record t { overlap_conflicts = u32 (t.overlap_conflicts + 1) } in
    if leb t.slot_count slot
    then t
    else if was_set && detect_overlap
    then if differs then conflict else t
    else if not was_set
    then record t {
      bitmap = bitmap_set t.bitmap slot;
      fingerprints = set t.fingerprints slot fingerprint;
      slots_received = u32 (t.slots_received + 1);
    }
    else if differs && detect_overlap
    then conflict
    else t

-- `ChunkCoverageTracker::record`: the new tracker, and `false` for an overlap conflict.
unfoldable pub record_chunk : Tracker → ℕ → Option (List ℕ) → ℕ → Bool → Tracker × Bool
unfolding mark_slot fingerprint_for_slot chunk_slot_index
record_chunk t offset none count detect_overlap = (t, true)
record_chunk t offset (some bytes) count detect_overlap =
    let slot = chunk_slot_index offset in
    let t' = mark_slot t slot (fingerprint_for_slot bytes count) detect_overlap in
    if count == 0 || not (offset % chunk_size == 0) || leb t.slot_count slot
    then (t, true)
    else (t', t'.overlap_conflicts == 0 || not detect_overlap)

unfoldable pub all_slots_received : Tracker → Bool
all_slots_received t =
    if t.slot_count == 0 then t.total_size == 0 else leb t.slot_count t.slots_received
