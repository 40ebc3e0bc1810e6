-- ===== src/Storage/Archived.antt =====
-- `archiveOne` of src/LogDownloader.cpp from the session to the archive: the session's file is the partial file that
-- `finalizePartial` moves.
use mavlink_companion_log_se.Base.{
  ℕ, ◌<◌, ◌≡◌, sym, ◌∙◌, List, true, none, some, get_elem?, inl, inr,
}
use mavlink_companion_log_se.Base.Run.{finished}
use mavlink_companion_log_se.Types.{Text, LogEntry, ArchiveResult}
use mavlink_companion_log_se.LogDownloader.Inbox.{Inbox}
use mavlink_companion_log_se.LogDownloader.Archive.{Settings, Answers, Downloader, archive_one}
use mavlink_companion_log_se.LogDownloader.Verified.{
  was_downloaded, was_skipped, was_kept, archive_one-Outcome,
}
use mavlink_companion_log_se.StreamDownload.{Params}
use mavlink_companion_log_se.StreamDownload.Filled.{read_at}
use mavlink_companion_log_se.StreamDownload.Session.{run}
use mavlink_companion_log_se.StreamDownload.Session.Waiting.{Timing, Attempt, Session}
use mavlink_companion_log_se.StreamDownload.Session.Delivered.{AllAttemptsCarry}
use mavlink_companion_log_se.StreamDownload.Session.Archived.{archive_one-run}
use mavlink_companion_log_se.Storage.Partials.{
  FilePath, archive, Disk, Manager, Finalizing, store_log,
}
use mavlink_companion_log_se.Storage.Stored.{store_log-Stored}

-- A reported download has an archive: the partial file was moved, whole.
archive_one-Moved :
    (cfg : Settings) (a : Answers) (entry : LogEntry) (d : Downloader) (stamp : Text)
    (f : Finalizing) (written : List ℕ) (m : Manager)
    → ((store_log cfg a entry d stamp f written m).1 ≡ none → a.finalized ≡ none)
    → (archive_one cfg a entry d).1 ≡ ArchiveResult.downloaded
    → (store_log cfg a entry d stamp f written m).0.disk (archive f.day f.stamp) ≡ some written
archive_one-Moved cfg a entry d stamp f written m answers downloaded =
    elim (archive_one-Outcome cfg a entry d) [
      | was_downloaded e verified g found rows ↦
          elim (store_log-Stored cfg a entry d stamp f written m) [
            | inl moved ↦ moved.1.1
            | inr kept ↦ absurd (cc (sym found ∙ answers kept.0.0))
          ]
      | was_skipped e c found success hash length' rows ↦ absurd (cc (sym e ∙ downloaded))
      | was_kept e rows ↦
          absurd (elim e [ inl g ↦ cc (sym g ∙ downloaded) | inr g ↦ cc (sym g ∙ downloaded) ])
    ]

-- The archive has a content, and its bytes are those of the log, up to the size.
abbrev pub HoldsLog : (ℕ → ℕ) → ℕ → FilePath → Disk → Type 0
HoldsLog log size path disk =
    (content : List ℕ) × (disk path ≡ some content)
    × ((x : ℕ) → x < size → get_elem? content x ≡ some (log x))

-- Whatever the schedule of the session, where its messages carry bytes of the log, the partial file holds what the
-- session has written, and finalizePartial's answer is that of the file system: if `archiveOne` reports a download,
-- then the archive of its day and time holds each byte of the log in its place, up to the size of the entry.
pub archive_one-HoldsLog :
    (log : ℕ → ℕ) (timing : Timing) (p : Params) (start_time : ℕ) (as' : List Attempt) (q : Inbox)
    (cfg : Settings) (a : Answers) (entry : LogEntry) (d : Downloader) (s : Session) (stamp : Text)
    (f : Finalizing) (written : List ℕ) (m : Manager)
    → p.write_file ≡ true
    → p.byte_count ≡ entry.size
    → AllAttemptsCarry log entry.id as'
    → run timing p entry.id start_time as' q ≡ finished (s, a.session)
    → ((x : ℕ) → x < entry.size → get_elem? written x ≡ read_at s.stream.file x)
    → ((store_log cfg a entry d stamp f written m).1 ≡ none → a.finalized ≡ none)
    → (archive_one cfg a entry d).1 ≡ ArchiveResult.downloaded
    → HoldsLog log entry.size
        (archive f.day f.stamp)
        (store_log cfg a entry d stamp f written m).0.disk
archive_one-HoldsLog log timing p start_time as' q cfg a entry d s stamp f written m writes whole
      carry ran held answers downloaded =
    (
      written,
      archive_one-Moved cfg a entry d stamp f written m answers downloaded,
      λ x lt.
          held x lt
          ∙ archive_one-run log timing p start_time as' q cfg a entry d s x writes whole carry ran
              downloaded lt,
    )
