-- ===== src/Storage/Examples.antt =====
-- A directory above the limit of 1 GB, and a log that is stored in an empty one.
use mavlink_companion_log_se.Base.{ℕ, ◌^◌, ◌<◌, ◌≡◌, refl, List, [], ◌∷◌, true, arith}
use mavlink_companion_log_se.Storage.{
  File, verified_files, total_from, insert_file, sort_files, remove_oldest, max_bytes_of,
  enforce_storage_limit,
}
use mavlink_companion_log_se.Storage.Limit.{bytes_of, Enforced, enforce_storage_limit_lem}
use mavlink_companion_log_se.Base.{none, some, false, Option}
use mavlink_companion_log_se.Types.{text_eq, LogEntry, FailureReason, FcRereadMode}
use mavlink_companion_log_se.Database.{empty_database}
use mavlink_companion_log_se.LogDownloader.Archive.{
  Settings, SessionResult, Answers, Downloader, download_log_data, verify_dataflash_file,
  verify_fc_sample_reread,
}
use mavlink_companion_log_se.Storage.Partials.{
  FilePath, partial, archive, same_path, write_path, remove_path, rename_path, Manager,
  begin_partial_file, Finalizing, finalize_partial, store_log,
}
use mavlink_companion_log_se.Storage.Stored.{passes, Stored, store_log-Stored}

abbrev file : ℕ → ℕ → File
file mtime size = record {
  path = mtime ∷ [];
  mtime = mtime;
  size = size;
  is_regular_file = true;
  is_bin = true;
}

abbrev three_files : List File
three_files = file 9 500_000_000 ∷ file 3 500_000_000 ∷ file 6 500_000_000 ∷ []

oldest_run : (enforce_storage_limit 1 three_files).0 ≡ file 3 500_000_000 ∷ []
unfolding enforce_storage_limit verified_files total_from sort_files insert_file remove_oldest
    max_bytes_of
oldest_run = refl

small_run : bytes_of (verified_files three_files) < 2 ^ 64
unfolding bytes_of verified_files
small_run = omega arith

enforce_storage_limit_lem_example :
    Enforced
      (max_bytes_of 1)
      (bytes_of (verified_files three_files))
      (enforce_storage_limit 1 three_files)
enforce_storage_limit_lem_example = enforce_storage_limit_lem 1 three_files small_run

abbrev entry : LogEntry
entry = record { id = 9; num_logs = 1; last_log_num = 9; time_utc = 0; size = 2 }

abbrev session : SessionResult
session = record {
  success = true;
  failure = FailureReason.none;
  ranges = [];
  sha256 = [];
  probe_sha256 = [];
  probe_bytes = 0;
}

abbrev answers : Answers
answers = record {
  probe = session;
  cancels_in_probe = false;
  cancels_after_probe = false;
  opens = true;
  session = session;
  cancels_in_download = false;
  parses = true;
  rereads = true;
  finalized = none;
  now = 0;
}

abbrev downloader : Downloader
downloader = record {
  database = empty_database;
  cancel_requested = false;
  last_failure_reason = FailureReason.none;
}

abbrev settings : Settings
settings = record {
  probe_bytes = 100;
  verify_after_download = false;
  verify_dataflash_parse = true;
  verify_fc_reread = FcRereadMode.sample;
}

abbrev empty_manager : Manager
empty_manager = record { partial_counter = 0; disk = λ q. none }

abbrev at_noon : Finalizing
at_noon = record { day = 1 ∷ []; stamp = 12 ∷ []; fsyncs = true; renames = true }

abbrev stored : Manager × Option FilePath
stored = store_log settings answers entry downloader (11 ∷ []) at_noon (5 ∷ 6 ∷ []) empty_manager

stored_run : stored.0.disk (archive (1 ∷ []) (12 ∷ [])) ≡ some (5 ∷ 6 ∷ [])
unfolding store_log begin_partial_file write_path remove_path rename_path same_path finalize_partial
    download_log_data verify_dataflash_file verify_fc_sample_reread text_eq
stored_run = refl

store_log-Stored_example :
    Stored
      (passes settings answers entry downloader)
      (partial (11 ∷ []) 1)
      (archive (1 ∷ []) (12 ∷ []))
      (5 ∷ 6 ∷ [])
      empty_manager
      stored
store_log-Stored_example =
    store_log-Stored settings answers entry downloader (11 ∷ []) at_noon (5 ∷ 6 ∷ []) empty_manager
