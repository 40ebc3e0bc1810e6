-- ===== src/DroneLogService/Process.antt =====
-- src/DroneLogService.cpp: `processState`, one step of the main loop.
use mavlink_companion_log_se.Base.{
  ℕ, ◌+◌, ◌-◌, List, [], ◌∷◌, Bool, true, false, ◌&&◌, ◌||◌, not, ◌==◌, ltb, leb, if◌then◌else◌,
}
use mavlink_companion_log_se.Types.{LogEntry, CycleResult}
use mavlink_companion_log_se.Database.{mark_all_erased, set_stat}
use mavlink_companion_log_se.Storage.{File, total_verified_bytes, enforce_storage_limit}
use mavlink_companion_log_se.Base.{◌++◌}
use mavlink_companion_log_se.LogDownloader.Archive.{Answers, Job, archive_all}
use mavlink_companion_log_se.LogDownloader.Enumerate.{Window, enumerate_logs, not_empty}
use mavlink_companion_log_se.DroneLogService.Model.{
  State, Config, Service, set_state, reset_cancel, return_to_idle_state, handle_connection_lost,
  evaluate_archive_outcome,
}

-- What the outside answers in one step: the clock, the transport, the attempts of an enumeration, and
-- for each log of a cycle whether a cancel arrives before it, and its answers.
pub record Outside : Type 0 where
  pub now : ℕ
  pub connects : Bool
  pub heartbeat_arrives : Bool
  pub heartbeat_fresh : Bool
  pub windows : List Window
  pub cancels : LogEntry → Bool
  pub answers : LogEntry → Answers
  pub sends : Bool
  -- The directory of logs, as the iterator of `enforceStorageLimit` meets it.
  pub files : List File

unfoldable pub jobs_for : Outside → List LogEntry → List Job
jobs_for o [] = []
jobs_for o (e ∷ es) =
    record { entry = e; cancels = o.cancels e; answers = o.answers e } ∷ jobs_for o es

unfoldable pub cache_enumeration_result : List LogEntry → Service → Service
cache_enumeration_result entries s = record s { cached_fc_logs = entries; fc_logs_stale = false }

-- `reconnect`: a failed connect leaves the transport down.
unfoldable pub reconnect : Outside → Service → Service × Bool
reconnect o s =
    if o.connects
    then (record s { connected = true }, o.heartbeat_arrives)
    else (record s { connected = false }, false)

-- `enumerateLogs` as the service calls it: the list, and the cancel flag that it leaves.
unfoldable pub enumerated : Outside → Service → List LogEntry
enumerated o s = (enumerate_logs s.downloader.cancel_requested o.windows).0

unfoldable pub enumerate_and_cache : Outside → Service → Service
enumerate_and_cache o s =
    let d = s.downloader in
    cache_enumeration_result (enumerated o s) (record s {
      downloader = record d { cancel_requested = (enumerate_logs d.cancel_requested o.windows).1 };
    })

-- `archiveAll` on the entries, and its result kept.
unfoldable pub archive_entries : Config → Outside → List LogEntry → Service → Service
archive_entries cfg o entries s =
    let (d, r) = archive_all cfg.download s.downloader (jobs_for o entries) in
    record s { downloader = d; last_cycle_result = r }

unfoldable pub may_erase : Config → CycleResult → List LogEntry → Bool
may_erase cfg r logs =
    not (ltb 0 r.cancelled) && (r.all_archived && (cfg.erase_after_success && not_empty logs))

unfoldable pub run_archive : Config → Outside → Service → Service
run_archive cfg o s =
    let s' = archive_entries cfg o (enumerated o s) (enumerate_and_cache o s) in
    set_state
      (if may_erase cfg s'.last_cycle_result (enumerated o s)
        then State.erase_all
        else State.cleanup)
      s'

-- `eraseFlightControllerLogs`.
unfoldable pub erase_flight_controller_logs : Outside → Service → Service
erase_flight_controller_logs o s =
    let d = s.downloader in
    if o.sends
    then record s {
      downloader = record d { database = mark_all_erased d.database };
      erasures = s.erasures + 1;
    }
    else s

unfoldable pub run_erase_all : Outside → Service → Service
run_erase_all o s =
    if s.downloader.cancel_requested
    then set_state State.cleanup s
    else set_state State.cleanup (erase_flight_controller_logs o s)

unfoldable pub contains_id : List ℕ → ℕ → Bool
contains_id [] id = false
contains_id (x ∷ xs) id = x == id || contains_id xs id

unfoldable pub select_entries : List ℕ → List LogEntry → List LogEntry
select_entries ids [] = []
select_entries ids (e ∷ es) =
    let rest = select_entries ids es in if contains_id ids e.id then e ∷ rest else rest

unfoldable pub run_manual_download : Config → Outside → Service → Service
run_manual_download cfg o s =
    let logs = enumerated o s in
    let selected =
      if s.manual_download_all then logs else select_entries s.manual_download_ids logs in
    let s' = archive_entries cfg o selected (enumerate_and_cache o s) in
    set_state State.cleanup (record s' { manual_download_ids = []; manual_download_all = false })

unfoldable pub run_cleanup : Config → Outside → Service → Service
run_cleanup cfg o s =
    let d = s.downloader in
    let (removed, left) = enforce_storage_limit cfg.max_size_gb o.files in
    let counted = record s {
      downloader = record d {
        database = set_stat d.database "storage_bytes" (total_verified_bytes left);
      };
      removed_files = s.removed_files ++ removed;
    } in
    let s' = evaluate_archive_outcome cfg o.connects counted in
    set_state
      (if s'.archive_requested
        then State.delay
        else if s'.monitor.armed
        then State.wait_disarm
        else State.wait_arm)
      s'

unfoldable pub process_in : State → Config → Outside → Service → Service
process_in State.boot cfg o s = set_state State.connect s
process_in State.connect cfg o s =
    let (s', up) = reconnect o s in
    if up then set_state State.wait_heartbeat (record s' { fc_logs_stale = true }) else s'
process_in State.wait_heartbeat cfg o s =
    if s.monitor.detected
    then set_state State.wait_arm s
    else if not o.heartbeat_fresh
    then handle_connection_lost s
    else s
process_in State.wait_arm cfg o s = if not o.heartbeat_fresh then handle_connection_lost s else s
process_in State.wait_disarm cfg o s = if not o.heartbeat_fresh then handle_connection_lost s else s
process_in State.delay cfg o s =
    if leb cfg.delay_after_disarm_sec (o.now - s.disarm_time)
    then set_state State.enumerate (reset_cancel (record s { archive_requested = false }))
    else s
process_in State.enumerate cfg o s = set_state State.archive s
process_in State.archive cfg o s = run_archive cfg o s
process_in State.erase_all cfg o s = run_erase_all o s
process_in State.manual_refresh cfg o s = return_to_idle_state (enumerate_and_cache o s)
process_in State.manual_download cfg o s = run_manual_download cfg o s
process_in State.manual_erase cfg o s =
    return_to_idle_state
      (cache_enumeration_result [] (erase_flight_controller_logs o (reset_cancel s)))
process_in State.cleanup cfg o s = run_cleanup cfg o s
process_in State.connection_lost cfg o s = set_state State.connect s

unfoldable pub process_state : Config → Outside → Service → Service
process_state cfg o s = process_in s.state cfg o s
