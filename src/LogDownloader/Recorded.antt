-- ===== src/LogDownloader/Recorded.antt =====
-- What `archiveOne` of src/LogDownloader.cpp leaves in the catalog, row by row.
use mavlink_companion_log_se.Base.{
  ◌≡◌, ◌≢◌, ◌↔◌, ◌⊎◌, refl, sym, ap, ◌∙◌, subst, List, [], ◌∷◌, true, false, ◌==◌, some, Has,
  Has-append_left, Has-append_right, Has-append_cases, Bool-cases, inl, inr,
}
use mavlink_companion_log_se.Types.{
  Text, text_eq, text_eq_refl, eq_of_text_eq, LogEntry, Candidate, ArchiveResult,
}
use mavlink_companion_log_se.Database.{
  Row, Database, delete_key, insert_archived_log, find_candidate,
}
use mavlink_companion_log_se.LogDownloader.Archive.{
  Settings, Answers, Finalized, Downloader, archived_row, archive_one, probe_length,
}
use mavlink_companion_log_se.LogDownloader.Verified.{
  IsVerified, was_downloaded, was_skipped, was_kept, archive_one-Outcome,
}

Has-delete_key :
    (x : Row) (key : Text) (rs : List Row)
    → Has x (delete_key rs key) ↔ (Has x rs × (x.sha256 ≢ key))
unfolding delete_key
Has-delete_key x key [] = ((λ h. elim h [ ]), (λ h. elim h.0 [ ]))
Has-delete_key x key (r ∷ rs) =
    let (kept, keeps) = Has-delete_key x key rs in
    elim (Bool-cases (text_eq r.sha256 key)) [
      | inl same ↦
          rw (same, Has)
            (
              (λ h. let (there, other) = kept h in (inr there, other)),
              (λ h. elim h.0 [
                | inl here ↦
                    absurd (h.1 (ap (λ y. y.sha256) here ∙ eq_of_text_eq r.sha256 key same))
                | inr there ↦ keeps (there, h.1)
              ]),
            )
      | inr differs ↦
          let other : r.sha256 ≢ key = λ e.
            absurd
              (cc (sym differs ∙ ap (λ t. text_eq r.sha256 t) (sym e) ∙ text_eq_refl r.sha256)) in
          rw (differs, Has)
            (
              (λ h. elim h [
                | inl here ↦ (inl here, λ e. other (ap (λ y. y.sha256) (sym here) ∙ e))
                | inr there ↦ let (rest, ne) = kept there in (inr rest, ne)
              ]),
              (λ h. elim h.0 [ inl here ↦ inl here | inr there ↦ inr (keeps (there, h.1)) ]),
            )
    ]

-- The rows after are the new one, and those before of another hash.
abbrev pub RowAdded : List Row → Row → List Row → Type 0
RowAdded before row after =
    (x : Row) → Has x after ↔ ((x ≡ row) ⊎ (Has x before × (x.sha256 ≢ row.sha256)))

insert_archived_log-RowAdded :
    (db : Database) (row : Row)
    → row.erased ≡ false
    → RowAdded db.archived_logs row (insert_archived_log db row).archived_logs
unfolding insert_archived_log
insert_archived_log-RowAdded db row fresh x =
    let stored : Row = record row { erased = false } in
    let same : stored ≡ row = rw fresh refl in
    let (kept, keeps) = Has-delete_key x row.sha256 db.archived_logs in
    let old = delete_key db.archived_logs row.sha256 in
    (
      (λ h. elim (Has-append_cases x old (stored ∷ []) h) [
        | inl there ↦ inr (kept there)
        | inr (inl here) ↦ inl (here ∙ same)
        | inr (inr nowhere) ↦ elim nowhere [ ]
      ]),
      (λ h. elim h [
        | inl here ↦ Has-append_right x old (stored ∷ []) (inl (here ∙ sym same))
        | inr there ↦ Has-append_left x old (stored ∷ []) (keeps there)
      ]),
    )

-- How `archiveOne` may have ended, against the catalog `db` that it found.
pub data Recorded (cfg : Settings) (a : Answers) (entry : LogEntry) (db : Database)
    (r : Downloader × ArchiveResult) : Type 0 where
  downloaded :
      r.1 ≡ ArchiveResult.downloaded
      → IsVerified cfg a entry
      → (f : Finalized) → a.finalized ≡ some f
      → RowAdded db.archived_logs (archived_row a entry f) r.0.database.archived_logs
      → Recorded cfg a entry db r
  skipped :
      r.1 ≡ ArchiveResult.skipped_duplicate
      → (c : Candidate) → find_candidate db entry.id entry.size ≡ some c
      → a.probe.success ≡ true
      → a.probe.probe_sha256 ≡ c.probe_sha256
      → (probe_length cfg.probe_bytes entry.size == c.probe_bytes) ≡ true
      → r.0.database.archived_logs ≡ db.archived_logs
      → Recorded cfg a entry db r
  kept :
      (r.1 ≡ ArchiveResult.failed) ⊎ (r.1 ≡ ArchiveResult.cancelled)
      → r.0.database.archived_logs ≡ db.archived_logs
      → Recorded cfg a entry db r

-- For every log, `archiveOne` ends in one of three ways. It reports a download after every check has passed, and
-- then the catalog has the log's row and, of the rows before, exactly those of another content hash: a row of
-- the same hash is replaced, be it of this log or of another. It reports a duplicate after a successful probe of
-- a catalogued log with the recorded probe hash and length; or it reports a failure or a cancellation. In the
-- last two the catalog's rows are as they were.
pub archive_one-Recorded :
    (cfg : Settings) (a : Answers) (entry : LogEntry) (d : Downloader)
    → Recorded cfg a entry d.database (archive_one cfg a entry d)
archive_one-Recorded cfg a entry d = elim (archive_one-Outcome cfg a entry d) [
  | was_downloaded e verified f found rows ↦ downloaded e verified f found (
      subst (λ rs. RowAdded d.database.archived_logs (archived_row a entry f) rs) (sym rows)
        (insert_archived_log-RowAdded d.database (archived_row a entry f) refl))
  | was_skipped e c found success hash length' rows ↦
      skipped e c found success (eq_of_text_eq a.probe.probe_sha256 c.probe_sha256 hash) length'
        rows
  | was_kept e rows ↦ kept e rows
]
