-- ===== src/LogDownloader/Catalogued.antt =====
-- What is in the catalog when a cycle reports that all is archived.
use mavlink_companion_log_se.Base.{
  ℕ, ◌≡◌, ◌≢◌, ◌⊎◌, sym, ap, subst, ◌∙◌, List, [], ◌∷◌, ◌++◌, true, false, none, arith, inl, inr,
  Bool-cases,
}
use mavlink_companion_log_se.Types.{Text, LogEntry, ArchiveResult, text_eq, empty_cycle}
use mavlink_companion_log_se.Database.{
  Database, Row, find_candidate, has_archived, delete_key, insert_archived_log,
}
use mavlink_companion_log_se.Database.Catalog.{
  KeyIs, has_row, has_archived-row, has_archived-insert,
}
use mavlink_companion_log_se.LogDownloader.Archive.{
  Settings, Answers, Finalized, Downloader, Job, Cycle, cancel_if, archive_one, archive_loop,
  archive_all, archived_row, counts_as_failed,
}
use mavlink_companion_log_se.LogDownloader.Verified.{
  Outcome, was_downloaded, was_skipped, was_kept, archive_one-Outcome,
}
use mavlink_companion_log_se.LogDownloader.Cycle.{loop-cases, next, outcome, asked, stops-counts}

-- Different logs have different contents: each row that a log's hash would replace is of that log,
-- among the rows of the catalog and those that the cycle adds before it.
abbrev pub Distinct : List Row → List Job → Type 0
Distinct rows [] = Unit {0}
Distinct rows (j ∷ js) =
    KeyIs rows j.answers.session.sha256 j.entry.id j.entry.size
    × Distinct
        (archived_row j.answers j.entry (record { final_path = []; archive_duration_ms = 0 })
          ∷ rows)
        js

-- Every log of the list has a row.
abbrev pub AllArchived : Database → List Job → Type 0
AllArchived db [] = Unit {0}
AllArchived db (j ∷ js) = (has_archived db j.entry.id j.entry.size ≡ true) × AllArchived db js

-- The catalog stands for the rows that `Distinct` has in view, as far as keys go.
abbrev Within : List Row → List Row → Type 0
Within actual spec =
    (sha256 : Text) (id size : ℕ) → KeyIs spec sha256 id size → KeyIs actual sha256 id size

KeyIs-delete :
    (rs : List Row) (gone sha256 : Text) (id size : ℕ)
    → KeyIs rs sha256 id size
    → KeyIs (delete_key rs gone) sha256 id size
unfolding delete_key
KeyIs-delete [] gone sha256 id size k = tt
KeyIs-delete (r ∷ rs) gone sha256 id size k = elim (Bool-cases (text_eq r.sha256 gone)) [
  | inl hit ↦ rw hit (KeyIs-delete rs gone sha256 id size k.1)
  | inr miss ↦ rw miss (k.0, KeyIs-delete rs gone sha256 id size k.1)
]

KeyIs-snoc :
    (rs : List Row) (r : Row) (sha256 : Text) (id size : ℕ)
    → KeyIs rs sha256 id size
    → (text_eq r.sha256 sha256 ≡ false) ⊎ ((r.fc_log_id ≡ id) × (r.fc_log_size ≡ size))
    → KeyIs (rs ++ r ∷ []) sha256 id size
KeyIs-snoc [] r sha256 id size k h = (h, tt)
KeyIs-snoc (x ∷ rs) r sha256 id size k h = (k.0, KeyIs-snoc rs r sha256 id size k.1 h)

-- The keys of the row that a download adds.
abbrev new_row : Answers → LogEntry → Row
new_row a entry = archived_row a entry (record { final_path = []; archive_duration_ms = 0 })

-- A log that has not failed has its row afterwards, and no log has lost its own.
record Kept (before after : Database) (spec : List Row) (entry : LogEntry) : Type 0 where
  own : has_archived after entry.id entry.size ≡ true
  others : (id size : ℕ) → has_archived before id size ≡ true → has_archived after id size ≡ true
  within : Within after.archived_logs spec

has_archived-rows :
    (a b : Database) (id size : ℕ)
    → a.archived_logs ≡ b.archived_logs
    → has_archived a id size ≡ has_archived b id size
has_archived-rows a b id size e =
    has_archived-row a id size ∙ ap (λ rs. has_row rs id size) e ∙ sym (has_archived-row b id size)

module _ (cfg : Settings) (a : Answers) (entry : LogEntry) (db : Database) (spec : List Row)
    (w : Within db.archived_logs spec)
    (distinct : KeyIs spec a.session.sha256 entry.id entry.size) where
  Kept-insert :
      (f : Finalized)
      → Kept db (insert_archived_log db (archived_row a entry f)) (new_row a entry ∷ spec) entry
  unfolding insert_archived_log
  Kept-insert f =
      let row = archived_row a entry f in
      let keys = w a.session.sha256 entry.id entry.size distinct in
      record {
        own = ground (arith, has_archived-insert db row entry.id entry.size keys);
        others = λ id size h. ground (arith, has_archived-insert db row id size keys);
        within = λ sha256 id size k.
            KeyIs-snoc (delete_key db.archived_logs a.session.sha256) row sha256 id size
              (KeyIs-delete db.archived_logs a.session.sha256 sha256 id size (w sha256 id size k.1))
              k.0;
      }

  Kept-same :
      find_candidate db entry.id entry.size ≢ none → Kept db db (new_row a entry ∷ spec) entry
  unfolding has_archived
  Kept-same known = record {
    own = ground arith;
    others = λ id size h. h;
    within = λ sha256 id size k. w sha256 id size k.1;
  }

Kept-rows :
    (before a b : Database) (spec : List Row) (entry : LogEntry)
    → b.archived_logs ≡ a.archived_logs
    → Kept before a spec entry
    → Kept before b spec entry
Kept-rows before a b spec entry e k = record {
  own = has_archived-rows b a entry.id entry.size e ∙ k.own;
  others = λ id size h. has_archived-rows b a id size e ∙ k.others id size h;
  within =
      λ sha256 id size v. subst (λ rs. KeyIs rs sha256 id size) (sym e) (k.within sha256 id size v);
}

Outcome-Kept :
    (cfg : Settings) (a : Answers) (entry : LogEntry) (db : Database) (spec : List Row)
    (r : Downloader × ArchiveResult)
    → Outcome cfg a entry db r
    → Within db.archived_logs spec
    → KeyIs spec a.session.sha256 entry.id entry.size
    → counts_as_failed r.1 ≡ false
    → Kept db r.0.database (new_row a entry ∷ spec) entry
unfolding counts_as_failed
Outcome-Kept cfg a entry db spec r (was_downloaded e v f fin rows) w k good =
    Kept-rows db (insert_archived_log db (archived_row a entry f)) r.0.database _ entry rows
      (Kept-insert cfg a entry db spec w k f)
Outcome-Kept cfg a entry db spec r (was_skipped e c known p h n rows) w k good =
    Kept-rows db db r.0.database _ entry rows
      (Kept-same cfg a entry db spec w k (λ gone. cc (sym known ∙ gone)))
Outcome-Kept cfg a entry db spec r (was_kept (inl e) rows) w k good = absurd (ground arith)
Outcome-Kept cfg a entry db spec r (was_kept (inr e) rows) w k good = absurd (ground arith)

-- A loop that ends without a failure has had none before.
archive_loop-flag :
    (cfg : Settings) (c : Cycle) (js : List Job)
    → (archive_loop cfg c js).any_failed ≡ false
    → c.any_failed ≡ false
unfolding archive_loop
archive_loop-flag cfg c [] good = good
archive_loop-flag cfg c (j ∷ js) good = elim (loop-cases cfg c j js) [
  | inl e ↦ absurd (ground arith)
  | inr (inl (last, e)) ↦ ground arith
  | inr (inr e) ↦
      ground
        (arith, archive_loop-flag cfg (next cfg c j js) js (ap (λ r. r.any_failed) (sym e) ∙ good))
]

loop-good :
    (cfg : Settings) (c : Cycle) (j : Job) (js : List Job)
    → (archive_loop cfg (next cfg c j js) js).any_failed ≡ false
    → counts_as_failed (outcome cfg c j js) ≡ false
loop-good cfg c j js good = ground (arith, archive_loop-flag cfg (next cfg c j js) js good)

-- The loop from `c` on: if nothing fails, all the logs have their rows, and those that had one keep it.
archive_loop-AllArchived :
    (cfg : Settings) (c : Cycle) (js : List Job) (spec : List Row)
    → Within c.downloader.database.archived_logs spec
    → Distinct spec js
    → (archive_loop cfg c js).any_failed ≡ false
    → AllArchived (archive_loop cfg c js).downloader.database js
      × ((id size : ℕ)
          → has_archived c.downloader.database id size ≡ true
          → has_archived (archive_loop cfg c js).downloader.database id size ≡ true)
unfolding archive_loop cancel_if
archive_loop-AllArchived cfg c [] spec w dis good = (tt, λ id size h. h)
archive_loop-AllArchived cfg c (j ∷ js) spec w dis good = elim (loop-cases cfg c j js) [
  | inl e ↦ absurd (ground arith)
  | inr (inl (last, e)) ↦ absurd (ground (arith, stops-counts (outcome cfg c j js)))
  | inr (inr e) ↦
      let fine : counts_as_failed (outcome cfg c j js) ≡ false =
        loop-good cfg c j js (ap (λ r. r.any_failed) (sym e) ∙ good) in
      let kept =
        Outcome-Kept cfg j.answers j.entry c.downloader.database spec
          (archive_one cfg j.answers j.entry (asked cfg c j js))
          (archive_one-Outcome cfg j.answers j.entry (asked cfg c j js)) w dis.0 fine in
      let (later, old) =
        archive_loop-AllArchived cfg (next cfg c j js) js (new_row j.answers j.entry ∷ spec)
          kept.within dis.1 (ap (λ r. r.any_failed) (sym e) ∙ good) in
      subst
        (λ r.
          ((has_archived r.downloader.database j.entry.id j.entry.size ≡ true)
            × AllArchived r.downloader.database js)
          × ((id size : ℕ)
              → has_archived c.downloader.database id size ≡ true
              → has_archived r.downloader.database id size ≡ true))
        (sym e)
        (
          (old j.entry.id j.entry.size kept.own, later),
          λ id size h. old id size (kept.others id size h),
        )
]

-- Where different logs have different contents, a cycle that reports all as archived leaves for every
-- log of its list a row of its id and size in the catalog.
pub archive_all-AllArchived :
    (cfg : Settings) (d : Downloader) (jobs : List Job)
    → Distinct d.database.archived_logs jobs
    → (archive_all cfg d jobs).1.all_archived ≡ true
    → AllArchived (archive_all cfg d jobs).0.database jobs
unfolding archive_all
archive_all-AllArchived cfg d jobs dis all =
    (archive_loop-AllArchived cfg
      (record { downloader = d; result = empty_cycle; any_failed = false }) jobs
      d.database.archived_logs (λ sha256 id size k. k) dis (ground arith)).0
