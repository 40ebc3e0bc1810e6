-- ===== src/Database/Examples.antt =====
-- A catalog of two logs, as in the program's own test.
use mavlink_companion_log_se.Base.{ℕ, ◌≡◌, refl, [], ◌∷◌, false}
use mavlink_companion_log_se.Types.{Text, text_eq}
use mavlink_companion_log_se.Database.{Row, Database, has_archived, insert_archived_log}

abbrev row : ℕ → ℕ → Text → Row
row id size sha256 = record {
  sha256 = sha256;
  fc_log_id = id;
  fc_log_size = size;
  fc_log_time_utc = 0;
  probe_sha256 = [];
  probe_bytes = 0;
  archive_time = 0;
  archive_duration_ms = 0;
  filename = [];
  erased = false;
}

abbrev one_row : Database
one_row = record { archived_logs = row 3 900 (b'a' ∷ []) ∷ []; statistics = [] }

same_content : has_archived (insert_archived_log one_row (row 4 900 (b'a' ∷ []))) 3 900 ≡ false
unfolding has_archived insert_archived_log text_eq
same_content = refl
