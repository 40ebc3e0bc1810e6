-- ===== src/Storage/Partials.antt =====
-- src/StorageManager.cpp: `cleanupPartials`, `beginPartialFile` and `finalizePartial`, and what `archiveOne` of
-- src/LogDownloader.cpp does with its partial file. A path is kept as the parts that its name is printed from: the local
-- time to the second, the counter, the day. The file system is a function from paths to contents. What it and
-- the clock answer is a `Finalizing`.
use mavlink_companion_log_se.Base.{
  ℕ, ◌+◌, List, Bool, true, false, ◌&&◌, not, ◌==◌, Option, none, some, if◌then◌else◌,
}
use mavlink_companion_log_se.Types.{Text, text_eq, LogEntry}
use mavlink_companion_log_se.LogDownloader.Archive.{
  Settings, Answers, Downloader, download_log_data, verify_dataflash_file, verify_fc_sample_reread,
}

-- tmp/<stamp>_part<counter>.bin.partial, logs/<day>/<stamp>.bin, and any path of another form.
pub data FilePath : Type 0 where
  partial : Text → ℕ → FilePath
  archive : Text → Text → FilePath
  other : Text → FilePath

unfoldable pub same_path : FilePath → FilePath → Bool
same_path (partial s n) (partial t m) = text_eq s t && n == m
same_path (archive d s) (archive e t) = text_eq d e && text_eq s t
same_path (other s) (other t) = text_eq s t
same_path _ _ = false

unfoldable pub is_partial : FilePath → Bool
is_partial (partial s n) = true
is_partial _ = false

abbrev pub Disk : Type 0
Disk = FilePath → Option (List ℕ)

unfoldable pub write_path : FilePath → List ℕ → Disk → Disk
write_path p content disk q = if same_path q p then some content else disk q

unfoldable pub remove_path : FilePath → Disk → Disk
remove_path p disk q = if same_path q p then none else disk q

-- A file at the new path is replaced.
unfoldable pub rename_path : FilePath → FilePath → Disk → Disk
rename_path p to disk q = if same_path q to then disk p else if same_path q p then none else disk q

unfoldable pub cleanup_partials : Disk → Disk
cleanup_partials disk q = if is_partial q then none else disk q

pub record Manager : Type 0 where
  pub partial_counter : ℕ
  pub disk : Disk

unfoldable pub begin_partial_file : Text → Manager → Manager × FilePath
begin_partial_file stamp m =
    (record m { partial_counter = m.partial_counter + 1 }, partial stamp (m.partial_counter + 1))

-- The clock and the system calls of `finalizePartial`.
pub record Finalizing : Type 0 where
  pub day : Text
  pub stamp : Text
  pub fsyncs : Bool
  pub renames : Bool

unfoldable pub finalize_partial : Finalizing → FilePath → Disk → Disk × Option FilePath
finalize_partial f p disk =
    let final_path = archive f.day f.stamp in
    let renamed = rename_path p final_path disk in
    elim (disk p) [
      | none ↦ (disk, none)
      | some content ↦
          if not f.fsyncs
          then (disk, none)
          else if not f.renames
          then (disk, none)
          else elim (renamed final_path) [
            | none ↦ (renamed, none)
            | some moved ↦ (renamed, some final_path)
          ]
    ]

-- The partial file in `archiveOne`: `written` is what the session leaves in it.
unfoldable pub store_log :
    Settings
    → Answers
    → LogEntry
    → Downloader
    → Text
    → Finalizing
    → List ℕ
    → Manager
    → Manager × Option FilePath
store_log cfg a entry d stamp f written m =
    let (m1, p) = begin_partial_file stamp m in
    let disk = if a.opens then write_path p written m1.disk else m1.disk in
    let removed = record m1 { disk = remove_path p disk } in
    let (finalized, result) = finalize_partial f p disk in
    if not (download_log_data cfg a entry d).1
    then (removed, none)
    else if not (verify_dataflash_file cfg a)
    then (removed, none)
    else if not (verify_fc_sample_reread cfg a)
    then (removed, none)
    else (record m1 { disk = finalized }, result)
