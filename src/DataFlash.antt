-- ===== src/DataFlash.antt =====
-- src/DataFlashValidator.cpp: `validateBytes`, the scan of a downloaded log for well-formed messages. The buffer is
-- the list of its bytes; the conditions before each read keep it inside. A pass of the loop moves the position on
-- by at least one, so that one pass more than there are bytes is enough fuel.
pub mod Scanned
mod Examples
use mavlink_companion_log_se.Base.{
  ℕ, zero, suc, ◌+◌, List, Bool, true, false, ◌&&◌, not, ◌==◌, ltb, leb, Option, none, some,
  if◌then◌else◌, length, get_or,
}
use mavlink_companion_log_se.Base.Bits.{u32}

pub data ScanError : Type 0 where
  empty_buffer truncated_fmt past_end no_fmt : ScanError

pub record ValidationResult : Type 0 where
  pub ok : Bool
  pub bytes_scanned : ℕ
  pub resync_count : ℕ
  pub bad_message_count : ℕ
  pub error : Option ScanError

-- The formats map a message type to its length, if it is defined.
pub record Scan : Type 0 where
  pub pos : ℕ
  pub have_fmt : Bool
  pub formats : ℕ → Option ℕ
  pub bytes_scanned : ℕ
  pub resync_count : ℕ
  pub bad_message_count : ℕ

pub data Next : Type 0 where
  go_on : Scan → Next
  stop_with : ScanError → Scan → Next

abbrev pub fmt_size : ℕ
fmt_size = 3 + 1 + 1 + 4 + 16 + 64

unfoldable pub skip_byte : Scan → Scan
skip_byte s = record s { pos = s.pos + 1; resync_count = u32 (s.resync_count + 1) }

unfoldable pub count_bad : Scan → Scan
count_bad s = record s { bad_message_count = u32 (s.bad_message_count + 1) }

unfoldable pub read_fmt : List ℕ → Scan → Next
read_fmt data' s =
    if ltb (length data') (s.pos + fmt_size)
    then stop_with truncated_fmt (record s { bytes_scanned = s.pos })
    else go_on (record s {
      formats = λ t.
          if t == get_or data' (s.pos + 3) 0
          then some (get_or data' (s.pos + 4) 0)
          else s.formats t;
      have_fmt = true;
      pos = s.pos + fmt_size;
      bytes_scanned = s.pos + fmt_size;
    })

-- A message of a known length.
unfoldable pub read_message : List ℕ → ℕ → Scan → Next
read_message data' msg_len s =
    if ltb msg_len 3
    then go_on (count_bad (record s { pos = s.pos + 1 }))
    else if ltb (length data') (s.pos + msg_len)
    then stop_with past_end (record s { bytes_scanned = s.pos })
    else go_on (record s { pos = s.pos + msg_len; bytes_scanned = s.pos + msg_len })

-- One pass of the loop.
unfoldable pub scan_step : List ℕ → Scan → Next
scan_step data' s =
    let msg_type = get_or data' (s.pos + 2) 0 in
    if not (get_or data' s.pos 0 == 0xA3 && get_or data' (s.pos + 1) 0 == 0x95)
    then go_on (skip_byte s)
    else if msg_type == 0x80
    then read_fmt data' s
    else if not s.have_fmt
    then go_on (skip_byte s)
    else elim (s.formats msg_type) [
      | none ↦ go_on (count_bad (skip_byte s))
      | some msg_len ↦ read_message data' msg_len s
    ]

unfoldable pub failed_with : ScanError → Scan → ValidationResult
failed_with e s = record {
  ok = false;
  bytes_scanned = s.bytes_scanned;
  resync_count = s.resync_count;
  bad_message_count = s.bad_message_count;
  error = some e;
}

unfoldable pub finish : Scan → ValidationResult
finish s =
    if not s.have_fmt
    then failed_with no_fmt s
    else record (failed_with no_fmt s) { ok = true; error = none }

unfoldable pub scan : ℕ → List ℕ → Scan → Option ValidationResult
scan zero data' s = none
scan (suc fuel) data' s = elim (leb (s.pos + 3) (length data')) [
  | false ↦ some (finish s)
  | true ↦ elim (scan_step data' s) [
    | go_on s' ↦ scan fuel data' s'
    | stop_with e s' ↦ some (failed_with e s')
  ]
]

unfoldable pub new_scan : Scan
new_scan = record {
  pos = 0;
  have_fmt = false;
  formats = λ t. none;
  bytes_scanned = 0;
  resync_count = 0;
  bad_message_count = 0;
}

unfoldable pub validate_bytes : List ℕ → Option ValidationResult
validate_bytes data' =
    if length data' == 0
    then some (failed_with empty_buffer new_scan)
    else scan (suc (length data')) data' new_scan
