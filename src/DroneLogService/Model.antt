-- ===== src/DroneLogService/Model.antt =====
-- src/DroneLogService.cpp: the service's state, the flight events and the connection handling. What the
-- transport and the clock answer is an argument. The transport is the flag that `isConnected` reads.
use mavlink_companion_log_se.Base.{
  ℕ, ◌+◌, List, Bool, true, false, ◌&&◌, ◌||◌, not, ◌==◌, ltb, leb, if◌then◌else◌,
}
use mavlink_companion_log_se.Types.{LogEntry, CycleResult, is_transport_failure}
use mavlink_companion_log_se.FlightMonitor.{
  Monitor, Event, vehicle_detected, vehicle_armed, vehicle_disarmed, link_lost, link_restored,
}
use mavlink_companion_log_se.Storage.{File}
use mavlink_companion_log_se.LogDownloader.Archive.{Downloader, Settings}

pub data State : Type 0 where
  boot connect wait_heartbeat wait_arm wait_disarm delay enumerate archive erase_all cleanup
        connection_lost manual_refresh manual_download manual_erase :
      State

pub data Command : Type 0 where
  start_archive cancel_archive refresh_logs : Command
  download_logs : List ℕ → Bool → Command
  erase_all_logs : Command

-- The part of the configuration that the service reads.
pub record Config : Type 0 where
  pub download : Settings
  pub delay_after_disarm_sec : ℕ
  pub erase_after_success : Bool
  pub reconnect_on_transport_failure : Bool
  pub reconnect_after_consecutive_failures : ℕ
  pub max_size_gb : ℕ

pub record Service : Type 0 where
  pub state : State
  pub archive_requested : Bool
  pub disarm_time : ℕ
  pub last_cycle_result : CycleResult
  pub consecutive_archive_failures : ℕ
  pub cached_fc_logs : List LogEntry
  pub fc_logs_stale : Bool
  pub companion_commands : List Command
  pub manual_download_ids : List ℕ
  pub manual_download_all : Bool
  pub connected : Bool
  pub monitor : Monitor
  pub downloader : Downloader
  -- How many LOG_ERASE messages have been sent.
  pub erasures : ℕ
  -- The files that have been removed to keep the storage limit, in order.
  pub removed_files : List File

unfoldable pub is_archive_busy : State → Bool
is_archive_busy State.delay = true
is_archive_busy State.enumerate = true
is_archive_busy State.archive = true
is_archive_busy State.erase_all = true
is_archive_busy State.manual_refresh = true
is_archive_busy State.manual_download = true
is_archive_busy State.manual_erase = true
is_archive_busy _ = false

unfoldable pub set_state : State → Service → Service
set_state st s = record s { state = st }

unfoldable pub request_cancel : Service → Service
request_cancel s =
    let d = s.downloader in record s { downloader = record d { cancel_requested = true } }

unfoldable pub reset_cancel : Service → Service
reset_cancel s =
    let d = s.downloader in record s { downloader = record d { cancel_requested = false } }

unfoldable pub return_to_idle_state : Service → Service
return_to_idle_state s = set_state (if s.monitor.armed then State.wait_disarm else State.wait_arm) s

-- Busy states and `connection_lost` and `boot` are left alone.
unfoldable pub ignores_loss : State → Bool
ignores_loss State.connection_lost = true
ignores_loss State.boot = true
ignores_loss st = is_archive_busy st

unfoldable pub handle_connection_lost : Service → Service
handle_connection_lost s =
    if ignores_loss s.state
    then s
    else record s { connected = false; state = State.connection_lost }

unfoldable pub is_wait_arm : State → Bool
is_wait_arm State.wait_arm = true
is_wait_arm _ = false

unfoldable pub is_wait_disarm : State → Bool
is_wait_disarm State.wait_disarm = true
is_wait_disarm _ = false

unfoldable pub is_connection_lost : State → Bool
is_connection_lost State.connection_lost = true
is_connection_lost _ = false

-- `onFlightEvent` at the time `now`.
unfoldable pub on_flight_event : ℕ → Event → Service → Service
on_flight_event now vehicle_armed s =
    if is_wait_arm s.state
    then set_state State.wait_disarm s
    else if is_archive_busy s.state
    then request_cancel s
    else s
on_flight_event now vehicle_disarmed s =
    let noted = record s { disarm_time = now; archive_requested = true } in
    if is_wait_disarm s.state
    then set_state State.delay noted
    else if is_archive_busy s.state
    then request_cancel noted
    else noted
on_flight_event now link_lost s = handle_connection_lost s
on_flight_event now link_restored s =
    if is_connection_lost s.state then set_state State.connect s else s
on_flight_event now vehicle_detected s = s

-- `evaluateArchiveOutcome`: whether the transport is reconnected, given whether `connect` succeeds.
unfoldable pub wants_reconnect : Config → CycleResult → ℕ → Bool
wants_reconnect cfg r failures =
    (cfg.reconnect_on_transport_failure && is_transport_failure r.last_failure_reason)
    || (ltb 0 cfg.reconnect_after_consecutive_failures
        && leb cfg.reconnect_after_consecutive_failures failures)

unfoldable pub evaluate_archive_outcome : Config → Bool → Service → Service
evaluate_archive_outcome cfg connects s =
    let r = s.last_cycle_result in
    let failures = s.consecutive_archive_failures + 1 in
    if ltb 0 r.cancelled && r.failed == 0
    then s
    else if r.all_archived && r.failed == 0
    then record s { consecutive_archive_failures = 0 }
    else if not (wants_reconnect cfg r failures)
    then record s { consecutive_archive_failures = failures }
    else if connects
    then record s { connected = true; consecutive_archive_failures = 0 }
    else record s { connected = false; consecutive_archive_failures = failures }
