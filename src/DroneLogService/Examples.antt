-- ===== src/DroneLogService/Examples.antt =====
-- A service on its first flights.
use mavlink_companion_log_se.Base.{
  ℕ, suc, ◌≡◌, ◌≢◌, ◌⊎◌, refl, [], ◌∷◌, Bool, true, false, ◌||◌, some, inl, arith,
}
use mavlink_companion_log_se.Types.{text_eq, LogEntry, FailureReason, FcRereadMode, empty_cycle}
use mavlink_companion_log_se.FlightMonitor.{vehicle_disarmed, link_lost}
use mavlink_companion_log_se.Database.{
  empty_database, find_candidate, insert_archived_log, increment_stat, set_stat,
}
use mavlink_companion_log_se.ReceivedRanges.{bytes_received}
use mavlink_companion_log_se.LogDownloader.Archive.{
  Settings, SessionResult, Answers, archive_one, archive_all, archive_loop, cancel_if, tally,
  stops_all, counts_as_failed, unless_cancelled, download_full, download_log_data,
  verify_and_persist, verify_dataflash_file, verify_fc_sample_reread, persist,
}
use mavlink_companion_log_se.LogDownloader.Enumerate.{
  enumerate_logs, attempts, sort_entries, insert_entry, unique_entries, unique_from, not_empty,
}
use mavlink_companion_log_se.LogDownloader.Catalogued.{AllArchived}
use mavlink_companion_log_se.DroneLogService.Model.{
  State, Config, Service, on_flight_event, set_state, request_cancel, reset_cancel, is_archive_busy,
  return_to_idle_state,
}
use mavlink_companion_log_se.DroneLogService.Process.{
  Outside, process_state, process_in, run_archive, may_erase, enumerated, enumerate_and_cache,
  archive_entries, erase_flight_controller_logs, cache_enumeration_result, jobs_for, reconnect,
}
use mavlink_companion_log_se.DroneLogService.Companion.{
  JobKind, request_companion_job, request_erase, run_command, run_commands,
  drain_companion_commands, push_command, is_erase,
}
use mavlink_companion_log_se.DroneLogService.World.{
  new_service, request_job, request_archive_cancel, drain, process, perform, asks_erase, starts,
  acts, process_steps,
}
use mavlink_companion_log_se.DroneLogService.Calm.{is_process}
use mavlink_companion_log_se.DroneLogService.Erase.{
  ErasesAfterCycle, perform_erases_rightly, never_erases,
}
use mavlink_companion_log_se.DroneLogService.Retained.{
  performs, no_process, process_state_loses_nothing,
}
use mavlink_companion_log_se.Base.{none}
use mavlink_companion_log_se.DroneLogService.Jobs.{Answered, request_companion_job_lem}
use mavlink_companion_log_se.DroneLogService.Disarm.{
  on_flight_event_busy, is_arming, is_in_cycle, Soon, process_steps_disarm,
}
use mavlink_companion_log_se.DroneLogService.Forgotten.{is_manual, process_steps_forgets}

abbrev settings : Settings
settings = record {
  probe_bytes = 4096;
  verify_after_download = true;
  verify_dataflash_parse = false;
  verify_fc_reread = FcRereadMode.none;
}

abbrev config : Bool → Config
config erases = record {
  download = settings;
  delay_after_disarm_sec = 5;
  erase_after_success = erases;
  reconnect_on_transport_failure = true;
  reconnect_after_consecutive_failures = 3;
  max_size_gb = 1;
}

abbrev entry : ℕ → LogEntry
entry id = record { id = id; num_logs = 2; last_log_num = 2; time_utc = 0; size = 900 }

-- The content of a log, told by its id.
abbrev session : ℕ → SessionResult
session id = record {
  success = true;
  failure = FailureReason.none;
  ranges = record { first = 0; second = 900 } ∷ [];
  sha256 = id ∷ [];
  probe_sha256 = id ∷ [];
  probe_bytes = 900;
}

abbrev good : LogEntry → Answers
good e = record {
  probe = session e.id;
  cancels_in_probe = false;
  cancels_after_probe = false;
  opens = true;
  session = session e.id;
  cancels_in_download = false;
  parses = true;
  rereads = true;
  finalized = some (record { final_path = b'f' ∷ []; archive_duration_ms = 5 });
  now = 100;
}

abbrev outside : Outside
outside = record {
  now = 100;
  connects = true;
  heartbeat_arrives = true;
  heartbeat_fresh = true;
  windows =
      record { arrived = entry 2 ∷ entry 1 ∷ []; cancels_waiting = false; cancels_sleeping = false }
      ∷ [];
  cancels = λ e. false;
  answers = good;
  sends = true;
  files = [];
}

abbrev fresh_service : Service
fresh_service = new_service empty_database

abbrev service_in : State → Service
service_in st = record fresh_service {
  state = st;
  connected = true;
  cached_fc_logs = entry 1 ∷ entry 2 ∷ [];
}

request_companion_job_lem_example :
    Answered JobKind.download
      (1 ∷ 7 ∷ [])
      false
      (service_in State.wait_arm)
      (request_companion_job JobKind.download (1 ∷ 7 ∷ []) false (service_in State.wait_arm))
request_companion_job_lem_example =
    request_companion_job_lem JobKind.download (1 ∷ 7 ∷ []) false (service_in State.wait_arm)

on_flight_event_busy_example :
    let s' = on_flight_event 7 link_lost (service_in State.archive) in
    (s'.state ≡ State.archive)
    × (s'.connected ≡ true)
    × (s'.downloader.cancel_requested ≡ (false || is_arming link_lost))
unfolding is_archive_busy
on_flight_event_busy_example = on_flight_event_busy 7 link_lost (service_in State.archive) refl

process_steps_disarm_example :
    Soon 4
      (config true)
      (λ k. outside)
      (on_flight_event 7 vehicle_disarmed (service_in State.archive))
unfolding is_in_cycle
process_steps_disarm_example =
    process_steps_disarm (config true) (λ k. outside) 7 (service_in State.archive) refl tt

process_steps_forgets_example :
    let s' =
      process_steps
        (config true)
        (λ k. outside)
        (suc 3)
        (on_flight_event 7 vehicle_disarmed (service_in State.manual_refresh)) in
    (s'.state ≡ State.wait_arm) × (s'.archive_requested ≡ true)
unfolding is_manual
process_steps_forgets_example =
    process_steps_forgets (config true) (λ k. outside) 3 7 (service_in State.manual_refresh) refl tt
      refl (λ k. refl)

abbrev failing : Service
failing = record (service_in State.cleanup) {
  last_cycle_result = record empty_cycle {
    failed = 1;
    last_failure_reason = FailureReason.link_timeout;
  };
}

-- After its boot, connected.
abbrev started : Bool → Service
started erases =
    perform (config erases) (process outside)
      (perform (config erases) (process outside) fresh_service)

abbrev after_request : Bool → JobKind → Service
after_request erases kind =
    perform (config erases) drain
      (perform (config erases) (request_job kind [] false) (started erases))

never_erases_example :
    (perform (config false) (process outside) (after_request false JobKind.archive)).erasures ≡ 0
unfolding asks_erase is_erase
never_erases_example =
    never_erases
      (acts (process outside) (
        acts drain (
          acts (request_job JobKind.archive [] false)
            (acts (process outside) (acts (process outside) starts)))))
      refl refl

started_run :
    (perform (config false) (process outside) (after_request false JobKind.erase_all)).erasures
    ≢ (after_request false JobKind.erase_all).erasures
unfolding perform process_state process_in request_companion_job request_erase
    drain_companion_commands run_commands run_command push_command reset_cancel set_state
    is_archive_busy reconnect is_erase erase_flight_controller_logs return_to_idle_state
    cache_enumeration_result
started_run = omega arith

perform_erases_rightly_example :
    ErasesAfterCycle (config false) (after_request false JobKind.erase_all)
    ⊎ (((after_request false JobKind.erase_all).state ≡ State.manual_erase) × (true ≡ true))
unfolding asks_erase is_erase
perform_erases_rightly_example =
    perform_erases_rightly
      (acts drain (
        acts (request_job JobKind.erase_all [] false)
          (acts (process outside) (acts (process outside) starts))))
      (process outside) started_run

after_cycle_run :
    (performs
      (config true)
      (request_archive_cancel ∷ [])
      (process_state (config true) outside (service_in State.archive))).state
    ≡ State.erase_all
unfolding performs perform process_state process_in run_archive may_erase enumerated
    enumerate_and_cache archive_entries cache_enumeration_result push_command request_cancel
    set_state enumerate_logs not_empty jobs_for archive_all archive_loop archive_one cancel_if tally
    stops_all counts_as_failed unless_cancelled download_full download_log_data verify_and_persist
    verify_dataflash_file verify_fc_sample_reread persist find_candidate bytes_received
    insert_archived_log increment_stat set_stat attempts sort_entries insert_entry unique_entries
    unique_from
after_cycle_run = refl

process_state_loses_nothing_example :
    let before =
      performs
        (config true)
        (request_archive_cancel ∷ [])
        (process_state (config true) outside (service_in State.archive)) in
    AllArchived before.downloader.database (jobs_for outside before.cached_fc_logs)
    × AllArchived
        (process_state (config true) outside before).downloader.database
        (jobs_for outside before.cached_fc_logs)
unfolding enumerated enumerate_logs attempts sort_entries insert_entry unique_entries unique_from
    not_empty jobs_for text_eq no_process is_process
process_state_loses_nothing_example =
    process_state_loses_nothing (config true) outside outside (request_archive_cancel ∷ [])
      (service_in State.archive) refl (tt, ((inl refl, tt), tt)) refl after_cycle_run
