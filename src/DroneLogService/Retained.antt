-- ===== src/DroneLogService/Retained.antt =====
-- src/DroneLogService.cpp with src/LogDownloader.cpp: what the flight controller loses to the erasure after
-- a cycle is in the catalog.
use mavlink_companion_log_se.Base.{
  ◌≡◌, sym, ap, ◌∙◌, List, [], ◌∷◌, Bool, true, ◌&&◌, not, arith, Bool-cases, inl, inr,
}
use mavlink_companion_log_se.Database.{Database}
use mavlink_companion_log_se.DroneLogService.Model.{State, Config, Service, set_state}
use mavlink_companion_log_se.DroneLogService.Process.{
  Outside, process_in, process_state, run_archive, run_erase_all, enumerated, enumerate_and_cache,
  archive_entries, erase_flight_controller_logs, cache_enumeration_result,
}
use mavlink_companion_log_se.DroneLogService.World.{Action, perform}
use mavlink_companion_log_se.DroneLogService.World.{process_state-in}
use mavlink_companion_log_se.DroneLogService.Calm.{is_process, perform-Calm}
use mavlink_companion_log_se.DroneLogService.CalmSteps.{Calm, Calm-refl, Calm-trans, is_erase_all}
use mavlink_companion_log_se.DroneLogService.Safety.{run_archive-ErasesRightly}
use mavlink_companion_log_se.Base.{subst}
use mavlink_companion_log_se.Database.{mark_all_erased}
use mavlink_companion_log_se.Database.Catalog.{has_archived-mark_all_erased}
use mavlink_companion_log_se.LogDownloader.Archive.{Job}
use mavlink_companion_log_se.LogDownloader.Catalogued.{
  Distinct, AllArchived, archive_all-AllArchived,
}
use mavlink_companion_log_se.DroneLogService.Process.{jobs_for}

unfoldable pub performs : Config → List Action → Service → Service
performs cfg [] s = s
performs cfg (a ∷ as') s = performs cfg as' (perform cfg a s)

unfoldable pub no_process : List Action → Bool
no_process [] = true
no_process (a ∷ as') = not (is_process a) && no_process as'

performs-Calm :
    (cfg : Config) (actions : List Action) (s : Service)
    → no_process actions ≡ true
    → Calm s (performs cfg actions s)
unfolding performs no_process
performs-Calm cfg [] s h = Calm-refl s
performs-Calm cfg (a ∷ as') s h =
    Calm-trans (perform-Calm cfg a s (ground arith))
      (performs-Calm cfg as' (perform cfg a s) (ground arith))

AllArchived-erased :
    (db : Database) (jobs : List Job) → AllArchived db jobs → AllArchived (mark_all_erased db) jobs
AllArchived-erased db [] all = tt
AllArchived-erased db (j ∷ js) all = (
  has_archived-mark_all_erased db j.entry.id j.entry.size ∙ all.0,
  AllArchived-erased db js all.1,
)

-- The catalog after the archiving step, if it goes on to the erasure.
run_archive-AllArchived :
    (cfg : Config) (o : Outside) (s : Service)
    → Distinct s.downloader.database.archived_logs (jobs_for o (enumerated o s))
    → is_erase_all (run_archive cfg o s).state ≡ true
    → AllArchived
        (run_archive cfg o s).downloader.database
        (jobs_for o (run_archive cfg o s).cached_fc_logs)
unfolding run_archive set_state archive_entries enumerate_and_cache cache_enumeration_result
run_archive-AllArchived cfg o s distinct h =
    archive_all-AllArchived cfg.download _ (jobs_for o (enumerated o s)) distinct
      (run_archive-ErasesRightly cfg o s h).1

run_erase_all-AllArchived :
    (o : Outside) (s : Service) (jobs : List Job)
    → AllArchived s.downloader.database jobs
    → AllArchived (run_erase_all o s).downloader.database jobs
unfolding run_erase_all erase_flight_controller_logs set_state
run_erase_all-AllArchived o s jobs all = elim (Bool-cases s.downloader.cancel_requested) [
  | inl e ↦ rw e all
  | inr e ↦ rw e (elim (Bool-cases o.sends) [
    | inl sent ↦ rw sent (AllArchived-erased s.downloader.database jobs all)
    | inr lost ↦ rw lost all
  ])
]

retained :
    (cfg : Config) (o : Outside) (actions : List Action) (after : Service)
    → AllArchived after.downloader.database (jobs_for o after.cached_fc_logs)
    → no_process actions ≡ true
    → let before = performs cfg actions after in
      AllArchived before.downloader.database (jobs_for o before.cached_fc_logs)
retained cfg o actions after all quiet =
    let calm = performs-Calm cfg actions after quiet in
    subst (λ db. AllArchived db (jobs_for o (performs cfg actions after).cached_fc_logs))
      (sym calm.database)
      (subst (λ logs. AllArchived after.downloader.database (jobs_for o logs)) (sym calm.logs) all)

-- Where different logs have different contents: if an archiving step goes on to the erasure, and the step
-- that sends it comes after any actions of the other threads, then before and after that step every log
-- that the flight controller has listed is in the catalog.
pub process_state_loses_nothing :
    (cfg : Config) (o o' : Outside) (actions : List Action) (s : Service)
    → s.state ≡ State.archive
    → Distinct s.downloader.database.archived_logs (jobs_for o (enumerated o s))
    → no_process actions ≡ true
    → (performs cfg actions (process_state cfg o s)).state ≡ State.erase_all
    → let before = performs cfg actions (process_state cfg o s) in
      AllArchived before.downloader.database (jobs_for o before.cached_fc_logs)
      × AllArchived
          (process_state cfg o' before).downloader.database
          (jobs_for o before.cached_fc_logs)
unfolding process_in is_erase_all
process_state_loses_nothing cfg o o' actions s archiving distinct quiet erasing =
    let after = process_state cfg o s in
    let calm = performs-Calm cfg actions after quiet in
    let e : after ≡ run_archive cfg o s = process_state-in cfg o s State.archive archiving in
    let went : is_erase_all (run_archive cfg o s).state ≡ true =
      ap (λ x. is_erase_all x.state) (sym e) ∙ calm.state (ap is_erase_all erasing) in
    let all : AllArchived after.downloader.database (jobs_for o after.cached_fc_logs) =
      subst (λ x. AllArchived x.downloader.database (jobs_for o x.cached_fc_logs)) (sym e)
        (run_archive-AllArchived cfg o s distinct went) in
    let before = performs cfg actions after in
    let kept = retained cfg o actions after all quiet in
    (
      kept,
      subst (λ x. AllArchived x.downloader.database (jobs_for o before.cached_fc_logs))
          (sym (process_state-in cfg o' before State.erase_all erasing))
          (run_erase_all-AllArchived o' before (jobs_for o before.cached_fc_logs) kept),
    )
