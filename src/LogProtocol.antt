-- ===== src/LogProtocol.antt =====
-- include/mcls/MavlinkLogProtocol.hpp: offsets, slots and chunk counts of LOG_DATA.
-- The chunk size is the length of the payload field of MAVLink's LOG_DATA, 90 bytes as the README says.
use mavlink_companion_log_se.Base.{
  ℕ, ◌+◌, ◌-◌, ◌*◌, ◌/◌, ◌%◌, ◌^◌, ◌≤◌, ◌<◌, ◌≡◌, arith, ◌==◌, if◌then◌else◌,
}
use mavlink_companion_log_se.Base.Bits.{u32}

abbrev pub chunk_size : ℕ
chunk_size = 90

abbrev pub log_stream_request_count : ℕ
log_stream_request_count = 0xffff_ffff

unfoldable pub align_down_to_chunk : ℕ → ℕ
align_down_to_chunk offset = offset - offset % chunk_size

unfoldable pub chunk_slot_index : ℕ → ℕ
chunk_slot_index offset = offset / chunk_size

-- The sum is a `uint32_t`, so it wraps for a size within a chunk of 2 ^ 32.
unfoldable pub chunk_count_for_size : ℕ → ℕ
chunk_count_for_size size =
    if size == 0 then 0 else (u32 (size + chunk_size) + 2 ^ 32 - 1) % 2 ^ 32 / chunk_size

-- Below the wrap, the slots of a size are exactly those that hold one of its bytes: the last byte
-- lies in the last slot, and the slots reach no further than a chunk.
pub chunk_count_for_size_bounds :
    (size : ℕ)
    → size + chunk_size < 2 ^ 32
    → (size ≤ chunk_count_for_size size * chunk_size)
      × (chunk_count_for_size size * chunk_size < size + chunk_size)
unfolding chunk_count_for_size
chunk_count_for_size_bounds size h = ground arith

pub align_down-slot :
    (offset : ℕ) → align_down_to_chunk offset ≡ chunk_slot_index offset * chunk_size
unfolding align_down_to_chunk chunk_slot_index
align_down-slot offset = omega arith
