-- ===== src/DataFlash/Examples.antt =====
-- Runs of `validateBytes` on small logs.
use mavlink_companion_log_se.Base.{ℕ, ◌++◌, ◌≡◌, refl, List, [], ◌∷◌, true, none, some, replicate}
use mavlink_companion_log_se.DataFlash.{
  skip_byte, count_bad, read_fmt, read_message, scan_step, failed_with, finish, scan, new_scan,
  validate_bytes,
}
use mavlink_companion_log_se.DataFlash.Scanned.{Ends, validate_bytes_lem}

-- A byte of noise, the format of messages of type 1 and length 4, one such message and one of an unknown type.
abbrev a_log : List ℕ
a_log =
    7 ∷ 0xA3 ∷ 0x95 ∷ 0x80 ∷ 1 ∷ 4 ∷ replicate 84 0 ++ 0xA3 ∷ 0x95 ∷ 1 ∷ 9 ∷ 0xA3 ∷ 0x95 ∷ 2 ∷ []

a_log_is_valid :
    validate_bytes a_log
    ≡ some (record {
      ok = true;
      bytes_scanned = 94;
      resync_count = 2;
      bad_message_count = 1;
      error = none;
    })
unfolding skip_byte count_bad read_fmt read_message scan_step failed_with finish scan new_scan
    validate_bytes
a_log_is_valid = refl

validate_bytes_lem_example : Ends a_log (validate_bytes a_log)
validate_bytes_lem_example = validate_bytes_lem a_log
