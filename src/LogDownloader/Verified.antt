-- ===== src/LogDownloader/Verified.antt =====
-- What a log has passed when `archiveOne` reports it as downloaded, and what a failure leaves behind.
use mavlink_companion_log_se.Base.{
  ℕ, ◌≡◌, ◌⊎◌, refl, sym, ap, subst, ◌∙◌, Bool, true, false, ◌&&◌, ◌||◌, not, ◌==◌, none, some,
  if◌then◌else◌, arith, inl, inr, Option-cases, Bool-cases,
}
use mavlink_companion_log_se.Types.{LogEntry, Candidate, ArchiveResult, FailureReason, text_eq}
use mavlink_companion_log_se.ReceivedRanges.{bytes_received}
use mavlink_companion_log_se.Database.{
  Database, find_candidate, insert_archived_log, increment_stat, set_stat,
}
use mavlink_companion_log_se.LogDownloader.Archive.{
  Settings, Answers, Finalized, Downloader, cancel_if, download_log_data,
  download_probe_and_compare, verify_dataflash_file, verify_fc_sample_reread, fail_with,
  is_cancelled_reason, persist, verify_and_persist, download_full, unless_cancelled, archive_one,
  archived_row, probe_length,
}

-- All that stands between a log and its row in the catalog.
pub record IsVerified (cfg : Settings) (a : Answers) (entry : LogEntry) : Type 0 where
  pub opened : a.opens ≡ true
  pub complete : a.session.success ≡ true
  pub whole :
      (not cfg.verify_after_download || bytes_received a.session.ranges == entry.size) ≡ true
  pub parsed : verify_dataflash_file cfg a ≡ true
  pub reread : verify_fc_sample_reread cfg a ≡ true
  pub durable : (f : Finalized) × (a.finalized ≡ some f)

rows-increment_stat :
    (db : Database) (k : _) (n : ℕ) → (increment_stat db k n).archived_logs ≡ db.archived_logs
unfolding increment_stat
rows-increment_stat db k n = refl

rows-persist :
    (a : Answers) (entry : LogEntry) (f : Finalized) (d : Downloader)
    → (persist a entry f d).0.database.archived_logs
      ≡ (insert_archived_log d.database (archived_row a entry f)).archived_logs
unfolding persist increment_stat set_stat
rows-persist a entry f d = refl

persist-downloaded :
    (a : Answers) (entry : LogEntry) (f : Finalized) (d : Downloader)
    → (persist a entry f d).1 ≡ ArchiveResult.downloaded
unfolding persist
persist-downloaded a entry f d = refl

pub database-cancel_if : (c : Bool) (d : Downloader) → (cancel_if c d).database ≡ d.database
unfolding cancel_if
database-cancel_if c d = refl

-- A download that reports success has opened its file, completed the session and has all bytes.
download_log_data-cases :
    (cfg : Settings) (a : Answers) (entry : LogEntry) (d : Downloader)
    → (((download_log_data cfg a entry d).1 ≡ true)
        × ((download_log_data cfg a entry d).0.database ≡ d.database)
        × (a.opens ≡ true)
        × (a.session.success ≡ true)
        × ((not cfg.verify_after_download || bytes_received a.session.ranges == entry.size) ≡ true))
      ⊎ (((download_log_data cfg a entry d).1 ≡ false)
          × ((download_log_data cfg a entry d).0.database ≡ d.database))
unfolding download_log_data
download_log_data-cases cfg a entry d = ground arith

-- What `archiveOne` may have done, against the catalog `db` that it found.
pub data Outcome (cfg : Settings) (a : Answers) (entry : LogEntry) (db : Database)
    (r : Downloader × ArchiveResult) : Type 0 where
  was_downloaded :
      r.1 ≡ ArchiveResult.downloaded
      → IsVerified cfg a entry
      → (f : Finalized) → a.finalized ≡ some f
      → r.0.database.archived_logs ≡ (insert_archived_log db (archived_row a entry f)).archived_logs
      → Outcome cfg a entry db r
  was_skipped :
      r.1 ≡ ArchiveResult.skipped_duplicate
      → (c : Candidate) → find_candidate db entry.id entry.size ≡ some c
      → a.probe.success ≡ true
      → text_eq a.probe.probe_sha256 c.probe_sha256 ≡ true
      → (probe_length cfg.probe_bytes entry.size == c.probe_bytes) ≡ true
      → r.0.database.archived_logs ≡ db.archived_logs
      → Outcome cfg a entry db r
  was_kept :
      (r.1 ≡ ArchiveResult.failed) ⊎ (r.1 ≡ ArchiveResult.cancelled)
      → r.0.database.archived_logs ≡ db.archived_logs
      → Outcome cfg a entry db r

module _ (cfg : Settings) (a : Answers) (entry : LogEntry) (db : Database) where
  Outcome-at :
      {r s : Downloader × ArchiveResult}
      → r ≡ s
      → Outcome cfg a entry db s
      → Outcome cfg a entry db r
  Outcome-at e = subst (Outcome cfg a entry db) (sym e)

  if-Outcome :
      {r s : Downloader × ArchiveResult} (b : Bool)
      → Outcome cfg a entry db r
      → Outcome cfg a entry db s
      → Outcome cfg a entry db (if b then r else s)
  if-Outcome true x y = x
  if-Outcome false x y = y

  if-both :
      {r s : Downloader × ArchiveResult} (b : Bool)
      → (b ≡ true → Outcome cfg a entry db r)
      → Outcome cfg a entry db s
      → Outcome cfg a entry db (if b then r else s)
  if-both true x y = x refl
  if-both false x y = y

  fail_with-Outcome :
      (reason : FailureReason) (d : Downloader)
      → d.database ≡ db
      → Outcome cfg a entry db (fail_with reason d)
  unfolding fail_with
  fail_with-Outcome reason d e =
      was_kept (inl refl) (rows-increment_stat d.database _ 1 ∙ ap (λ b. b.archived_logs) e)

  verify_and_persist-Outcome :
      (d : Downloader)
      → d.database ≡ db
      → a.opens ≡ true
      → a.session.success ≡ true
      → (not cfg.verify_after_download || bytes_received a.session.ranges == entry.size) ≡ true
      → Outcome cfg a entry db (verify_and_persist cfg a entry d)
  unfolding verify_and_persist
  verify_and_persist-Outcome d e opened complete whole =
      elim (Bool-cases (verify_dataflash_file cfg a)) [
        | inr bad ↦ Outcome-at (ground arith) (fail_with-Outcome FailureReason.parse_failed d e)
        | inl parsed ↦ elim (Bool-cases (verify_fc_sample_reread cfg a)) [
          | inr bad ↦
              Outcome-at (ground arith) (fail_with-Outcome FailureReason.reread_mismatch d e)
          | inl reread ↦ elim (Option-cases a.finalized) [
            | inl lost ↦
                Outcome-at (ground arith) (fail_with-Outcome FailureReason.storage_error d e)
            | inr (f, kept) ↦ Outcome-at {s = persist a entry f d} (ground arith) (
                was_downloaded (persist-downloaded a entry f d)
                  (record {
                    opened = opened;
                    complete = complete;
                    whole = whole;
                    parsed = parsed;
                    reread = reread;
                    durable = (f, kept);
                  })
                  f kept
                  (rows-persist a entry f d
                    ∙ ap (λ b. (insert_archived_log b (archived_row a entry f)).archived_logs) e))
          ]
        ]
      ]

  -- The downloader after the download, when its result is read.
  abbrev after_download : Downloader → Downloader
  after_download d = cancel_if a.cancels_in_download (download_log_data cfg a entry d).0

  given_up-Outcome :
      (d : Downloader)
      → d.database ≡ db
      → Outcome cfg a entry db (
          if is_cancelled_reason d.last_failure_reason || d.cancel_requested
          then (
            record d { database = increment_stat d.database "archive_cancellations" 1 },
            ArchiveResult.cancelled,
          )
          else fail_with d.last_failure_reason d)
  given_up-Outcome d e =
      if-Outcome (is_cancelled_reason d.last_failure_reason || d.cancel_requested)
        (was_kept (inr refl)
          (rows-increment_stat d.database "archive_cancellations" 1 ∙ ap (λ b. b.archived_logs) e))
        (fail_with-Outcome d.last_failure_reason d e)

  download_full-Outcome :
      (d : Downloader) → d.database ≡ db → Outcome cfg a entry db (download_full cfg a entry d)
  unfolding download_full
  download_full-Outcome d e = elim (download_log_data-cases cfg a entry d) [
    | inl (done, same, opened, complete, whole) ↦
        Outcome-at {s = verify_and_persist cfg a entry (after_download d)} (ground arith) (
          verify_and_persist-Outcome _
            (database-cancel_if a.cancels_in_download (download_log_data cfg a entry d).0
              ∙ same
              ∙ e)
            opened complete whole)
    | inr (missed, same) ↦ Outcome-at (simp missed) (
        given_up-Outcome (after_download d)
          (database-cancel_if a.cancels_in_download (download_log_data cfg a entry d).0 ∙ same ∙ e))
  ]

  unless_cancelled-Outcome :
      (d : Downloader) → d.database ≡ db → Outcome cfg a entry db (unless_cancelled cfg a entry d)
  unfolding unless_cancelled
  unless_cancelled-Outcome d e =
      let same = database-cancel_if a.cancels_after_probe d ∙ e in
      if-Outcome (cancel_if a.cancels_after_probe d).cancel_requested
        (was_kept (inr refl) (ap (λ b. b.archived_logs) same)) (download_full-Outcome _ same)

-- A probe that finds a duplicate has succeeded with the recorded hash and length.
download_probe_and_compare-cases :
    (cfg : Settings) (a : Answers) (entry : LogEntry) (c : Candidate) (d : Downloader)
    → ((download_probe_and_compare cfg a entry c d).0.database ≡ d.database)
      × ((download_probe_and_compare cfg a entry c d).1 ≡ (
          a.probe.success
          && (text_eq a.probe.probe_sha256 c.probe_sha256
              && probe_length cfg.probe_bytes entry.size == c.probe_bytes)))
unfolding download_probe_and_compare
download_probe_and_compare-cases cfg a entry c d = ground arith

-- The body of `archiveOne` for a log with a candidate in the catalog.
archive_one-some :
    (cfg : Settings) (a : Answers) (entry : LogEntry) (d : Downloader) (c : Candidate)
    → find_candidate d.database entry.id entry.size ≡ some c
    → let d1 = (download_probe_and_compare cfg a entry c d).0 in
      let d2 = cancel_if a.cancels_in_probe d1 in
      archive_one cfg a entry d ≡ (
        if (download_probe_and_compare cfg a entry c d).1
        then (
          record d2 { database = increment_stat d2.database "flights_skipped" 1 },
          ArchiveResult.skipped_duplicate,
        )
        else if d2.cancel_requested
        then (d2, ArchiveResult.cancelled)
        else unless_cancelled cfg a entry d2)
unfolding archive_one
archive_one-some cfg a entry d c e = rw (e, archive_one)

archive_one-none :
    (cfg : Settings) (a : Answers) (entry : LogEntry) (d : Downloader)
    → find_candidate d.database entry.id entry.size ≡ none
    → archive_one cfg a entry d ≡ unless_cancelled cfg a entry d
unfolding archive_one
archive_one-none cfg a entry d e = rw (e, archive_one)

-- For every log, `archiveOne` ends in one of three ways. It reports a download after every check has
-- passed, and then has inserted the log's row by `insert_archived_log`; it reports a duplicate after a
-- successful probe of a catalogued log with the recorded probe hash and length; or it reports a failure or a
-- cancellation. In the last two the catalog's rows are as they were.
pub archive_one-Outcome :
    (cfg : Settings) (a : Answers) (entry : LogEntry) (d : Downloader)
    → Outcome cfg a entry d.database (archive_one cfg a entry d)
archive_one-Outcome cfg a entry d =
    elim (Option-cases (find_candidate d.database entry.id entry.size)) [
      | inl new ↦
          Outcome-at cfg a entry d.database (archive_one-none cfg a entry d new)
            (unless_cancelled-Outcome cfg a entry d.database d refl)
      | inr (c, known) ↦
          let (same, verdict) = download_probe_and_compare-cases cfg a entry c d in
          let d2 = cancel_if a.cancels_in_probe (download_probe_and_compare cfg a entry c d).0 in
          let kept : d2.database ≡ d.database = database-cancel_if a.cancels_in_probe _ ∙ same in
          Outcome-at cfg a entry d.database (archive_one-some cfg a entry d c known) (
            if-both cfg a entry d.database (download_probe_and_compare cfg a entry c d).1
              (λ hit. was_skipped refl c known (ground arith) (ground arith) (ground arith) (
                rows-increment_stat d2.database "flights_skipped" 1
                ∙ ap (λ b. b.archived_logs) kept))
              (if-Outcome cfg a entry d.database d2.cancel_requested
                (was_kept (inr refl) (ap (λ b. b.archived_logs) kept))
                (unless_cancelled-Outcome cfg a entry d.database d2 kept)))
    ]
