-- ===== src/Storage/Stored.antt =====
-- What storing a log does to the files.
use mavlink_companion_log_se.Base.{
  ℕ, ◌+◌, ◌≡◌, ◌≢◌, refl, sym, ◌∙◌, List, Bool, true, false, ◌&&◌, Option, none, some,
  if◌then◌else◌, arith, Bool-cases, ◌⊎◌, inl, inr,
}
use mavlink_companion_log_se.Types.{Text, LogEntry}
use mavlink_companion_log_se.LogDownloader.Archive.{
  Settings, Answers, Downloader, download_log_data, verify_dataflash_file, verify_fc_sample_reread,
}
use mavlink_companion_log_se.Storage.Partials.{
  FilePath, partial, archive, other, is_partial, Disk, write_path, remove_path, cleanup_partials,
  Manager, begin_partial_file, Finalizing, finalize_partial, store_log,
}
use mavlink_companion_log_se.Storage.Moved.{
  Moved, Refused, Unchanged, finalize_partial-cases, same_path-ne, same_path_refl,
}

-- Whether the download, the parse and the re-read are good.
abbrev pub passes : Settings → Answers → LogEntry → Downloader → Bool
passes cfg a entry d =
    (download_log_data cfg a entry d).1
    && verify_dataflash_file cfg a
    && verify_fc_sample_reread cfg a

-- A log was stored, or not.
abbrev pub Stored :
    Bool → FilePath → FilePath → List ℕ → Manager → Manager × Option FilePath → Type 0
Stored good p to written before (after, r) =
    ((good ≡ true) × Moved p to written before.disk (after.disk, r))
    ⊎ (Refused p before.disk (after.disk, r)
        × (good ≡ false → after.disk p ≡ none)
        × ((q : FilePath) → cleanup_partials after.disk q ≡ cleanup_partials before.disk q))

opened :
    (cfg : Settings) (a : Answers) (entry : LogEntry) (d : Downloader)
    → (download_log_data cfg a entry d).1 ≡ true
    → a.opens ≡ true
unfolding download_log_data
opened cfg a entry d done = ground arith

module _ (cfg : Settings) (a : Answers) (entry : LogEntry) (d : Downloader) (stamp : Text)
    (f : Finalizing) (written : List ℕ) (m : Manager) where
  abbrev p : FilePath
  p = partial stamp (m.partial_counter + 1)

  abbrev stored : Manager × Option FilePath
  stored = store_log cfg a entry d stamp f written m

  abbrev finalized : Disk × Option FilePath
  finalized = finalize_partial f p (write_path p written m.disk)

  store_log-passed :
      passes cfg a entry d ≡ true
      → stored
        ≡ (record { partial_counter = m.partial_counter + 1; disk = finalized.0 }, finalized.1)
  unfolding store_log begin_partial_file
  store_log-passed passed = let opens = opened cfg a entry d (ground arith) in ground arith

  store_log-removed :
      passes cfg a entry d ≡ false
      → stored ≡ (
        record {
          partial_counter = m.partial_counter + 1;
          disk = remove_path p (if a.opens then write_path p written m.disk else m.disk);
        },
        none,
      )
  unfolding store_log begin_partial_file
  store_log-removed failed = ground arith

  written_there : write_path p written m.disk p ≡ some written
  unfolding write_path
  written_there = ground (arith, same_path_refl p)

  written_else : (q : FilePath) → q ≢ p → write_path p written m.disk q ≡ m.disk q
  unfolding write_path
  written_else q ne = ground (arith, same_path-ne q p ne)

  removed_there : (disk : Disk) → remove_path p disk p ≡ none
  unfolding remove_path
  removed_there disk = ground (arith, same_path_refl p)

  removed_else : (disk : Disk) (q : FilePath) → q ≢ p → remove_path p disk q ≡ disk q
  unfolding remove_path
  removed_else disk q ne = ground (arith, same_path-ne q p ne)

  before_else :
      (q : FilePath)
      → q ≢ p
      → (if a.opens then write_path p written m.disk else m.disk) q ≡ m.disk q
  before_else q ne = elim (Bool-cases a.opens) [
    | inl opens ↦ rw opens (written_else q ne)
    | inr fails ↦ rw fails refl
  ]

  cleanup_same :
      (after : Disk)
      → Unchanged p p m.disk after
      → (q : FilePath) → cleanup_partials after q ≡ cleanup_partials m.disk q
  unfolding cleanup_partials is_partial
  cleanup_same after same (partial s n) = refl
  cleanup_same after same (archive e t) = same (archive e t) (λ h. absurd cc) (λ h. absurd cc)
  cleanup_same after same (other s) = same (other s) (λ h. absurd cc) (λ h. absurd cc)

  -- Storing a log moves what was written to the archive of its day and time, whole, in place of any archive of that
  -- name; then the download, the parse and the re-read are good, the partial file is gone, and no other file has
  -- changed. Or it reports no archive; then only the partial file may have changed, it is gone unless the three
  -- are good, and the files are, once the next start has removed the partial files, as without the log.
  pub store_log-Stored :
      Stored
        (passes cfg a entry d)
        p
        (archive f.day f.stamp)
        written
        m
        (store_log cfg a entry d stamp f written m)
  store_log-Stored = elim (Bool-cases (passes cfg a entry d)) [
    | inl passed ↦
        rw (store_log-passed passed)
          (elim (finalize_partial-cases f stamp (m.partial_counter + 1) written
            (write_path p written m.disk) written_there) [
              | inl moved ↦
                  inl
                    (passed, (moved.0, moved.1, moved.2, λ q a b. moved.3 q a b ∙ written_else q a))
              | inr refused ↦
                  let same : Unchanged p p m.disk finalized.0 =
                    λ q a b. refused.1 q a b ∙ written_else q a in
                  inr ((refused.0, same), (λ e. absurd (cc (sym e ∙ passed))), cleanup_same _ same)
            ])
    | inr failed ↦
        let before : Disk = if a.opens then write_path p written m.disk else m.disk in
        let same : Unchanged p p m.disk (remove_path p before) =
          λ q a b. removed_else before q a ∙ before_else q a in
        rw (store_log-removed failed)
          (inr ((refl, same), (λ e. removed_there before), cleanup_same _ same))
  ]
