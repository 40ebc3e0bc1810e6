-- ===== src/Coverage/Invariant.antt =====
-- The counter of received slots against the bitmap.
use mavlink_companion_log_se.Base.{
  ℕ, ◌+◌, ◌*◌, ◌/◌, ◌%◌, ◌^◌, ◌<◌, ◌≤◌, ◌≡◌, ◌↔◌, List, Bool, true, false, ◌&&◌, ◌||◌, not, Option,
  none, some, ltb, leb, ◌==◌, if◌then◌else◌, length, get_or, set, arith, suc, inl, inr, Bool-cases,
  length-set, length-replicate, sym,
}
use mavlink_companion_log_se.Base.Bits.{u32}
use mavlink_companion_log_se.Crc32.{Bytes}
use mavlink_companion_log_se.LogProtocol.{
  chunk_size, chunk_slot_index, chunk_count_for_size, chunk_count_for_size_bounds,
}
use mavlink_companion_log_se.Coverage.{
  Tracker, tracker_for, bitmap_test, bitmap_set, mark_slot, record_chunk, all_slots_received,
  fingerprint_for_slot,
}
use mavlink_companion_log_se.Coverage.Bitmap.{
  Bytes-replicate, bitmap_set-Bytes, length-bitmap_set, test-bitmap_set, test-empty,
}
use mavlink_companion_log_se.Base.Counting.{
  count_below, count_below-le, count_below_full, count_below_set, count_below-zero,
}

pub record IsTracked (t : Tracker) : Type 0 where
  pub counted : t.slots_received ≡ count_below t.slot_count (bitmap_test t.bitmap)
  pub room : t.slot_count ≤ length t.bitmap * 8
  pub bytes : Bytes t.bitmap
  pub prints : length t.fingerprints ≡ t.slot_count
  pub fits : t.slot_count < 2 ^ 32

module _ (t : Tracker) (slot : ℕ) (v : IsTracked t) (below : slot < t.slot_count)
    (new : bitmap_test t.bitmap slot ≡ false) where
  count-bitmap_set :
      count_below t.slot_count (bitmap_test (bitmap_set t.bitmap slot))
      ≡ suc (count_below t.slot_count (bitmap_test t.bitmap))
  count-bitmap_set =
      count_below_set t.slot_count _ _ slot below new
        (λ x. test-bitmap_set t.bitmap slot x v.bytes (omega (arith, v.room)))

  count-room : count_below t.slot_count (bitmap_test t.bitmap) < t.slot_count
  count-room = omega (
    arith,
    count-bitmap_set,
    count_below-le t.slot_count (bitmap_test (bitmap_set t.bitmap slot)),
  )

-- A slot that arrives is set, counted once, and nothing else in the bitmap changes.
pub mark_slot-IsTracked :
    (t : Tracker) (slot fp : ℕ) (detect : Bool)
    → IsTracked t
    → IsTracked (mark_slot t slot fp detect)
unfolding mark_slot
mark_slot-IsTracked t slot fp detect v = elim (Bool-cases (leb t.slot_count slot)) [
  | inl out ↦ rw out v
  | inr below ↦ elim (Bool-cases (bitmap_test t.bitmap slot)) [
    | inl old ↦ ground arith
    | inr new ↦
        rw (below, new)
          (record {
            counted = ground (
              arith,
              v.fits,
              v.counted,
              count-bitmap_set t slot v (ground arith) new,
              count-room t slot v (ground arith) new,
            );
            room = omega (arith, v.room, length-bitmap_set t.bitmap slot);
            bytes = bitmap_set-Bytes t.bitmap slot v.bytes;
            prints = omega (arith, v.prints, length-set t.fingerprints slot fp);
            fits = v.fits;
          })
  ]
]

-- A new tracker is consistent, for a size that is no closer than a chunk to 2 ^ 32.
pub tracker_for-IsTracked : (size : ℕ) → size + chunk_size < 2 ^ 32 → IsTracked (tracker_for size)
unfolding tracker_for
-- A new tracker is consistent, for a size that is no closer than a chunk to 2 ^ 32.
tracker_for-IsTracked size h = record {
  counted = sym (count_below-zero (chunk_count_for_size size) _ (test-empty _));
  room = omega (
    arith,
    chunk_count_for_size_bounds size h,
    length-replicate {A = ℕ} (u32 (chunk_count_for_size size + 7) / 8) 0,
  );
  bytes = Bytes-replicate _;
  prints = length-replicate _ _;
  fits = omega (arith, chunk_count_for_size_bounds size h);
}

-- Every call of `record` keeps the tracker consistent: the bitmap is in range and the counter is
-- the number of set slots.
pub record_chunk-IsTracked :
    (t : Tracker) (offset : ℕ) (bytes : Option (List ℕ)) (count : ℕ) (detect : Bool)
    → IsTracked t
    → IsTracked (record_chunk t offset bytes count detect).0
unfolding record_chunk
record_chunk-IsTracked t offset none count detect v = v
record_chunk-IsTracked t offset (some bytes) count detect v = ground (
  arith,
  mark_slot-IsTracked t (chunk_slot_index offset) (fingerprint_for_slot bytes count) detect v,
)

-- In a consistent tracker of at least one slot, `allSlotsReceived` says exactly whether each slot
-- is set in the bitmap.
all_slots_received_iff :
    (t : Tracker)
    → IsTracked t
    → 0 < t.slot_count
    → (all_slots_received t ≡ true)
      ↔ ((slot : ℕ) → slot < t.slot_count → bitmap_test t.bitmap slot ≡ true)
unfolding all_slots_received
all_slots_received_iff t v some_slots = (
  λ e. (count_below_full t.slot_count (bitmap_test t.bitmap)).0 (ground (arith, v.counted)),
  λ all. ground (arith, v.counted, (count_below_full t.slot_count (bitmap_test t.bitmap)).1 all),
)

-- `record` sets the slot of a non-empty chunk that starts on a slot of the log, and changes no other
-- slot. Empty chunks, and those that start elsewhere, leave the bitmap as it is.
pub test-record_chunk :
    (t : Tracker) (offset : ℕ) (bytes : List ℕ) (count : ℕ) (detect : Bool) (slot : ℕ)
    → IsTracked t
    → bitmap_test (record_chunk t offset (some bytes) count detect).0.bitmap slot ≡ (
        (not (count == 0)
          && offset % chunk_size == 0
          && ltb slot t.slot_count
          && chunk_slot_index offset == slot)
        || bitmap_test t.bitmap slot)
unfolding record_chunk mark_slot
test-record_chunk t offset bytes count detect slot v =
    ground (arith, v.room, test-bitmap_set t.bitmap (chunk_slot_index offset) slot v.bytes)

-- With overlap detection on, and while the conflict counter is not about to wrap, `record` refuses
-- exactly if there was a conflict before or this chunk lands on a set slot with another fingerprint.
-- The counter grows by one at a hit, and the fingerprint of a slot that is set is never replaced.
record_chunk_conflict :
    (t : Tracker) (offset : ℕ) (bytes : List ℕ) (count : ℕ)
    → 0 < count
    → offset % chunk_size ≡ 0
    → chunk_slot_index offset < t.slot_count
    → t.overlap_conflicts + 1 < 2 ^ 32
    → let r = record_chunk t offset (some bytes) count true in
      let hit =
        bitmap_test t.bitmap (chunk_slot_index offset)
        && not (
            get_or t.fingerprints (chunk_slot_index offset) 0
            == fingerprint_for_slot bytes count) in
      (r.1 ≡ (t.overlap_conflicts == 0 && not hit))
      × (r.0.overlap_conflicts ≡ (if hit then t.overlap_conflicts + 1 else t.overlap_conflicts))
      × (r.0.fingerprints ≡ (
          if bitmap_test t.bitmap (chunk_slot_index offset)
          then t.fingerprints
          else set t.fingerprints (chunk_slot_index offset) (fingerprint_for_slot bytes count)))
unfolding record_chunk mark_slot
record_chunk_conflict t offset bytes count some_bytes aligned below small = ground arith
