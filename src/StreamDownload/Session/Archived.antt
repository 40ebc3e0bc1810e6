-- ===== src/StreamDownload/Session/Archived.antt =====
-- `archiveOne` of src/LogDownloader.cpp over a session that `run` has made: `downloadLogData` takes its result.
use mavlink_companion_log_se.Base.{ℕ, ◌<◌, ◌≡◌, sym, ◌∙◌, subst, List, true, some, inl, inr}
use mavlink_companion_log_se.Base.Run.{finished, Upto}
use mavlink_companion_log_se.Types.{LogEntry, ArchiveResult}
use mavlink_companion_log_se.LogDownloader.Inbox.{Inbox}
use mavlink_companion_log_se.LogDownloader.Archive.{Settings, Answers, Downloader, archive_one}
use mavlink_companion_log_se.LogDownloader.Verified.{
  was_downloaded, was_skipped, was_kept, archive_one-Outcome,
}
use mavlink_companion_log_se.StreamDownload.{Params}
use mavlink_companion_log_se.StreamDownload.Filled.{read_at}
use mavlink_companion_log_se.StreamDownload.Session.{run}
use mavlink_companion_log_se.StreamDownload.Session.Waiting.{Timing, Attempt, Session}
use mavlink_companion_log_se.StreamDownload.Session.Delivered.{AllAttemptsCarry}
use mavlink_companion_log_se.StreamDownload.Session.Outcome.{Delivered, run-Delivered}

-- Whatever the schedule of the session, where its messages carry bytes of the log: if `archiveOne` reports a
-- download, the file that the session wrote has each byte of the log, up to the size of the entry, in its place.
pub archive_one-run :
    (log : ℕ → ℕ) (timing : Timing) (p : Params) (start_time : ℕ) (as' : List Attempt) (q : Inbox)
    (cfg : Settings) (a : Answers) (entry : LogEntry) (d : Downloader) (s : Session) (x : ℕ)
    → p.write_file ≡ true
    → p.byte_count ≡ entry.size
    → AllAttemptsCarry log entry.id as'
    → run timing p entry.id start_time as' q ≡ finished (s, a.session)
    → (archive_one cfg a entry d).1 ≡ ArchiveResult.downloaded
    → x < entry.size
    → read_at s.stream.file x ≡ some (log x)
archive_one-run log timing p start_time as' q cfg a entry d s x writes whole carry ran downloaded
      lt =
    let delivered : Delivered log p (s, a.session) =
      subst (Upto (Unit {0}) (Delivered log p)) ran
        (run-Delivered log timing p entry.id start_time as' q writes carry) in
    elim (archive_one-Outcome cfg a entry d) [
      | was_downloaded e verified f found rows ↦ elim delivered [
        | inl good ↦ good.3 x (subst (λ n. x < n) (sym whole) lt)
        | inr bad ↦ absurd (cc (sym bad.0 ∙ verified.complete))
      ]
      | was_skipped e c found success hash length' rows ↦ absurd (cc (sym e ∙ downloaded))
      | was_kept e rows ↦
          absurd (elim e [ inl f ↦ cc (sym f ∙ downloaded) | inr c ↦ cc (sym c ∙ downloaded) ])
    ]
