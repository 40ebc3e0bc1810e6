-- ===== src/LogDownloader/Archive.antt =====
-- src/LogDownloader.cpp: `archiveOne`, `archiveAll` and what they call. What the outside answers (the
-- sessions, the file system, the clock, and whether another thread has asked to cancel by the time of
-- a check) is an `Answers` per log. Log lines, progress display and durations of the summary are left out.
use mavlink_companion_log_se.Base.{
  ℕ, ◌+◌, ◌^◌, min, List, [], ◌∷◌, Bool, true, false, ◌&&◌, ◌||◌, not, ◌==◌, ltb, Option, none,
  some, if◌then◌else◌,
}
use mavlink_companion_log_se.Types.{
  Text, text_eq, LogEntry, Candidate, ArchiveResult, FailureReason, FcRereadMode, CycleResult,
  empty_cycle,
}
use mavlink_companion_log_se.Database.{
  Database, Row, find_candidate, insert_archived_log, increment_stat, set_stat,
}
use mavlink_companion_log_se.ReceivedRanges.{Span, bytes_received}

pub record Settings : Type 0 where
  pub probe_bytes : ℕ
  pub verify_after_download : Bool
  pub verify_dataflash_parse : Bool
  pub verify_fc_reread : FcRereadMode

-- `StreamDownloadResult`, without its metrics.
pub record SessionResult : Type 0 where
  pub success : Bool
  pub failure : FailureReason
  pub ranges : List Span
  pub sha256 : Text
  pub probe_sha256 : Text
  pub probe_bytes : ℕ

pub record Finalized : Type 0 where
  pub final_path : Text
  pub archive_duration_ms : ℕ

pub record Answers : Type 0 where
  pub probe : SessionResult
  pub cancels_in_probe : Bool
  pub cancels_after_probe : Bool
  pub opens : Bool
  pub session : SessionResult
  pub cancels_in_download : Bool
  pub parses : Bool
  pub rereads : Bool
  pub finalized : Option Finalized
  pub now : ℕ

pub record Downloader : Type 0 where
  pub database : Database
  pub cancel_requested : Bool
  pub last_failure_reason : FailureReason

-- Another thread may have called `requestCancel` before the next check.
unfoldable pub cancel_if : Bool → Downloader → Downloader
cancel_if arrives d = record d { cancel_requested = d.cancel_requested || arrives }

-- `static_cast<uint32_t>(min<int>(probe_bytes, static_cast<int>(size)))`: from 2 ^ 31 on the size is
-- negative as an `int`, hence the smaller.
unfoldable pub probe_length : ℕ → ℕ → ℕ
probe_length probe_bytes size = if ltb size (2 ^ 31) then min probe_bytes size else size

unfoldable pub download_probe_and_compare :
    Settings → Answers → LogEntry → Candidate → Downloader → Downloader × Bool
download_probe_and_compare cfg a entry candidate d =
    if not a.probe.success then (record d { last_failure_reason = a.probe.failure }, false) else (
      d,
      text_eq a.probe.probe_sha256 candidate.probe_sha256
          && probe_length cfg.probe_bytes entry.size == candidate.probe_bytes,
    )

unfoldable pub download_log_data : Settings → Answers → LogEntry → Downloader → Downloader × Bool
download_log_data cfg a entry d =
    if not a.opens
    then (record d { last_failure_reason = FailureReason.storage_error }, false)
    else if not a.session.success
    then (record d { last_failure_reason = a.session.failure }, false)
    else if cfg.verify_after_download && not (bytes_received a.session.ranges == entry.size)
    then (record d { last_failure_reason = FailureReason.verification_failed }, false)
    else (record d { last_failure_reason = FailureReason.none }, true)

unfoldable pub verify_dataflash_file : Settings → Answers → Bool
verify_dataflash_file cfg a = not cfg.verify_dataflash_parse || a.parses

unfoldable pub verify_fc_sample_reread : Settings → Answers → Bool
verify_fc_sample_reread cfg a = elim cfg.verify_fc_reread [
  | FcRereadMode.none ↦ true
  | _ ↦ a.rereads
]

-- The end of every path that fails.
unfoldable pub fail_with : FailureReason → Downloader → Downloader × ArchiveResult
fail_with reason d = (
  record d {
    last_failure_reason = reason;
    database = increment_stat d.database "archive_failures" 1;
  },
  ArchiveResult.failed,
)

unfoldable pub is_cancelled_reason : FailureReason → Bool
is_cancelled_reason FailureReason.cancelled = true
is_cancelled_reason _ = false

abbrev pub archived_row : Answers → LogEntry → Finalized → Row
archived_row a entry f = record {
  sha256 = a.session.sha256;
  fc_log_id = entry.id;
  fc_log_size = entry.size;
  fc_log_time_utc = entry.time_utc;
  probe_sha256 = a.session.probe_sha256;
  probe_bytes = a.session.probe_bytes;
  archive_time = a.now;
  archive_duration_ms = f.archive_duration_ms;
  filename = f.final_path;
  erased = false;
}

-- The row, then the statistics.
unfoldable pub persist : Answers → LogEntry → Finalized → Downloader → Downloader × ArchiveResult
persist a entry f d =
    let db1 = insert_archived_log d.database (archived_row a entry f) in
    let db2 = increment_stat db1 "flights_archived" 1 in
    let db3 = increment_stat db2 "bytes_downloaded" entry.size in
    (record d { database = set_stat db3 "last_archive_time" a.now }, ArchiveResult.downloaded)

-- From the completed download on.
unfoldable pub verify_and_persist :
    Settings → Answers → LogEntry → Downloader → Downloader × ArchiveResult
verify_and_persist cfg a entry d =
    if not (verify_dataflash_file cfg a)
    then fail_with FailureReason.parse_failed d
    else if not (verify_fc_sample_reread cfg a)
    then fail_with FailureReason.reread_mismatch d
    else elim a.finalized [
      | none ↦ fail_with FailureReason.storage_error d
      | some f ↦ persist a entry f d
    ]

-- The full download, once the duplicate check has let the log through.
unfoldable pub download_full :
    Settings → Answers → LogEntry → Downloader → Downloader × ArchiveResult
download_full cfg a entry d =
    let (d1, done) = download_log_data cfg a entry d in
    let d2 = cancel_if a.cancels_in_download d1 in
    if done
    then verify_and_persist cfg a entry d2
    else if is_cancelled_reason d2.last_failure_reason || d2.cancel_requested
    then (
      record d2 { database = increment_stat d2.database "archive_cancellations" 1 },
      ArchiveResult.cancelled,
    )
    else fail_with d2.last_failure_reason d2

-- The second check for cancellation, then the download.
unfoldable pub unless_cancelled :
    Settings → Answers → LogEntry → Downloader → Downloader × ArchiveResult
unless_cancelled cfg a entry d =
    let d' = cancel_if a.cancels_after_probe d in
    if d'.cancel_requested then (d', ArchiveResult.cancelled) else download_full cfg a entry d'

unfoldable pub archive_one : Settings → Answers → LogEntry → Downloader → Downloader × ArchiveResult
archive_one cfg a entry d = elim (find_candidate d.database entry.id entry.size) [
  | none ↦ unless_cancelled cfg a entry d
  | some candidate ↦
      let (d1, duplicate) = download_probe_and_compare cfg a entry candidate d in
      let d2 = cancel_if a.cancels_in_probe d1 in
      if duplicate
      then (
        record d2 { database = increment_stat d2.database "flights_skipped" 1 },
        ArchiveResult.skipped_duplicate,
      )
      else if d2.cancel_requested
      then (d2, ArchiveResult.cancelled)
      else unless_cancelled cfg a entry d2
]

-- One log of a cycle: whether a cancel arrives before its check, and the answers for it.
pub record Job : Type 0 where
  pub entry : LogEntry
  pub cancels : Bool
  pub answers : Answers

-- The `switch` of `archiveAll` on one log's result.
unfoldable pub tally : CycleResult → FailureReason → ArchiveResult → CycleResult
tally r reason ArchiveResult.skipped_duplicate = record r { skipped = r.skipped + 1 }
tally r reason ArchiveResult.downloaded = record r { downloaded = r.downloaded + 1 }
tally r reason ArchiveResult.cancelled = record r {
  cancelled = r.cancelled + 1;
  last_failure_reason = FailureReason.cancelled;
}
tally r reason ArchiveResult.failed = record r {
  failed = r.failed + 1;
  last_failure_reason = reason;
}

unfoldable pub stops_all : ArchiveResult → Bool
stops_all ArchiveResult.cancelled = true
stops_all _ = false

unfoldable pub counts_as_failed : ArchiveResult → Bool
counts_as_failed ArchiveResult.cancelled = true
counts_as_failed ArchiveResult.failed = true
counts_as_failed _ = false

pub record Cycle : Type 0 where
  pub downloader : Downloader
  pub result : CycleResult
  pub any_failed : Bool

unfoldable pub archive_loop : Settings → Cycle → List Job → Cycle
archive_loop cfg c [] = c
archive_loop cfg c (j ∷ js) =
    let d = cancel_if j.cancels c.downloader in
    elim d.cancel_requested [
      | true ↦ record c {
        downloader = d;
        result = tally c.result FailureReason.cancelled ArchiveResult.cancelled;
        any_failed = true;
      }
      | false ↦
          let (d', outcome) = archive_one cfg j.answers j.entry d in
          let c' : Cycle = record {
            downloader = d';
            result = tally c.result d'.last_failure_reason outcome;
            any_failed = c.any_failed || counts_as_failed outcome;
          } in
          elim (stops_all outcome) [ true ↦ c' | false ↦ archive_loop cfg c' js ]
    ]

unfoldable pub archive_all : Settings → Downloader → List Job → Downloader × CycleResult
archive_all cfg d jobs =
    let c =
      archive_loop cfg (record { downloader = d; result = empty_cycle; any_failed = false }) jobs in
    (c.downloader, record c.result { all_archived = not c.any_failed })
