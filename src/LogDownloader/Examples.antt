-- ===== src/LogDownloader/Examples.antt =====
-- Two logs archived into an empty catalog.
use mavlink_companion_log_se.Base.{ℕ, ◌≡◌, refl, List, [], ◌∷◌, true, false, some, inl}
use mavlink_companion_log_se.Types.{Text, text_eq, LogEntry, FailureReason, FcRereadMode}
use mavlink_companion_log_se.Database.{
  empty_database, find_candidate, insert_archived_log, increment_stat, set_stat,
}
use mavlink_companion_log_se.ReceivedRanges.{bytes_received}
use mavlink_companion_log_se.LogDownloader.Archive.{
  Settings, SessionResult, Answers, Downloader, Job, archive_one, archive_all, archive_loop,
  cancel_if, tally, stops_all, counts_as_failed, unless_cancelled, download_full, download_log_data,
  verify_and_persist, verify_dataflash_file, verify_fc_sample_reread, persist,
}
use mavlink_companion_log_se.LogDownloader.Listed.{IsListOf, enumerate_logs_lem}
use mavlink_companion_log_se.LogDownloader.Enumerate.{Window, enumerate_logs, not_empty}
use mavlink_companion_log_se.LogDownloader.Recorded.{Recorded, archive_one-Recorded}
use mavlink_companion_log_se.LogDownloader.Catalogued.{AllArchived, archive_all-AllArchived}

abbrev settings : Settings
settings = record {
  probe_bytes = 4096;
  verify_after_download = true;
  verify_dataflash_parse = true;
  verify_fc_reread = FcRereadMode.sample;
}

abbrev entry : ℕ → LogEntry
entry id = record { id = id; num_logs = 2; last_log_num = 2; time_utc = 0; size = 900 }

abbrev session : Text → SessionResult
session sha256 = record {
  success = true;
  failure = FailureReason.none;
  ranges = record { first = 0; second = 900 } ∷ [];
  sha256 = sha256;
  probe_sha256 = sha256;
  probe_bytes = 900;
}

abbrev good : Text → Answers
good sha256 = record {
  probe = session sha256;
  cancels_in_probe = false;
  cancels_after_probe = false;
  opens = true;
  session = session sha256;
  cancels_in_download = false;
  parses = true;
  rereads = true;
  finalized = some (record { final_path = b'f' ∷ []; archive_duration_ms = 5 });
  now = 100;
}

abbrev idle : Downloader
idle = record {
  database = empty_database;
  cancel_requested = false;
  last_failure_reason = FailureReason.none;
}

abbrev job : ℕ → Text → Job
job id sha256 = record { entry = entry id; cancels = false; answers = good sha256 }

abbrev two_jobs : List Job
two_jobs = job 1 (b'a' ∷ []) ∷ job 2 (b'b' ∷ []) ∷ []

archive_one-Recorded_example :
    Recorded settings
      (good (b'a' ∷ []))
      (entry 1)
      empty_database
      (archive_one settings (good (b'a' ∷ [])) (entry 1) idle)
archive_one-Recorded_example = archive_one-Recorded settings (good (b'a' ∷ [])) (entry 1) idle

two_jobs_run : (archive_all settings idle two_jobs).1.all_archived ≡ true
unfolding archive_all archive_loop archive_one cancel_if tally stops_all counts_as_failed
    unless_cancelled download_full download_log_data verify_and_persist verify_dataflash_file
    verify_fc_sample_reread persist find_candidate bytes_received insert_archived_log increment_stat
    set_stat
two_jobs_run = refl

archive_all-AllArchived_example :
    AllArchived (archive_all settings idle two_jobs).0.database two_jobs
unfolding text_eq
archive_all-AllArchived_example =
    archive_all-AllArchived settings idle two_jobs (tt, ((inl refl, tt), tt)) two_jobs_run

abbrev window : Window
window = record {
  arrived = entry 2 ∷ entry 1 ∷ entry 2 ∷ [];
  cancels_waiting = false;
  cancels_sleeping = false;
}

abbrev silent : Window
silent = record { arrived = []; cancels_waiting = false; cancels_sleeping = false }

enumerate_logs_lem_example :
    IsListOf window.arrived (enumerate_logs false (silent ∷ window ∷ silent ∷ [])).0
unfolding not_empty
enumerate_logs_lem_example =
    enumerate_logs_lem (silent ∷ []) window (silent ∷ []) ((refl, refl, refl), tt) refl
