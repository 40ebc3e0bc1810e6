-- ===== src/CompanionApi/Snapshot.antt =====
-- src/DroneLogService.cpp: `stateToString` and `buildSnapshot`, with include/mcls/ServiceSnapshot.hpp.
use mavlink_companion_log_se.Base.{
  ℕ, ◌*◌, ◌/◌, List, [], Bool, Option, none, some, ltb, length, if◌then◌else◌,
}
use mavlink_companion_log_se.Base.Bits.{u64}
use mavlink_companion_log_se.Types.{Text}
use mavlink_companion_log_se.Database.{get_stat}
use mavlink_companion_log_se.Storage.{File, total_verified_bytes}
use mavlink_companion_log_se.Recorder.{
  World, Recorder, CrashReason, media_lost, recorder_crashed, snapshot,
}
use mavlink_companion_log_se.DroneLogService.Model.{State, Service}
use mavlink_companion_log_se.CompanionApi.Json.{codes}

-- `ActiveProgress` of the downloader.
pub record Progress : Type 0 where
  pub active : Bool
  pub log_id : ℕ
  pub bytes_received : ℕ
  pub total_bytes : ℕ
  pub bytes_per_sec : ℕ

-- What the snapshot reads that the service's state does not hold.
pub record View : Type 0 where
  pub heartbeat_fresh : Bool
  pub progress : Progress
  pub stored_files : List File
  pub max_size_gb : ℕ

pub record ServiceSnapshot : Type 0 where
  pub state : Text
  pub version : Text
  pub job_type : Text
  pub transport_connected : Bool
  pub heartbeat_fresh : Bool
  pub vehicle_detected : Bool
  pub vehicle_armed : Bool
  pub fc_logs_count : ℕ
  pub fc_logs_stale : Bool
  pub archive_active : Bool
  pub archive_current_log_id : ℕ
  pub archive_progress_bytes : ℕ
  pub archive_progress_total_bytes : ℕ
  pub archive_percent : ℕ
  pub archive_bytes_per_sec : ℕ
  pub last_cycle_downloaded : ℕ
  pub last_cycle_skipped : ℕ
  pub last_cycle_failed : ℕ
  pub last_cycle_cancelled : ℕ
  pub last_cycle_all_archived : Bool
  pub storage_used_bytes : ℕ
  pub storage_limit_bytes : ℕ
  pub storage_archived_count : ℕ
  pub recording_enabled : Bool
  pub recording_active : Bool
  pub recording_duration_sec : ℕ
  pub recording_free_bytes : ℕ
  pub recording_crash_reason : Text

unfoldable pub state_to_string : State → Text
state_to_string State.boot = codes "boot"
state_to_string State.connect = codes "connect"
state_to_string State.wait_heartbeat = codes "wait_heartbeat"
state_to_string State.wait_arm = codes "wait_arm"
state_to_string State.wait_disarm = codes "wait_disarm"
state_to_string State.delay = codes "delay"
state_to_string State.enumerate = codes "enumerate"
state_to_string State.archive = codes "archive"
state_to_string State.erase_all = codes "erase_all"
state_to_string State.cleanup = codes "cleanup"
state_to_string State.connection_lost = codes "connection_lost"
state_to_string State.manual_refresh = codes "manual_refresh"
state_to_string State.manual_download = codes "manual_download"
state_to_string State.manual_erase = codes "manual_erase"

unfoldable pub job_type_of : State → Text
job_type_of State.delay = codes "archive"
job_type_of State.enumerate = codes "archive"
job_type_of State.archive = codes "archive"
job_type_of State.erase_all = codes "archive"
job_type_of State.manual_refresh = codes "refresh"
job_type_of State.manual_download = codes "download"
job_type_of State.manual_erase = codes "erase"
job_type_of _ = []

unfoldable pub crash_text : Option CrashReason → Text
crash_text none = []
crash_text (some media_lost) = codes "media_lost"
crash_text (some recorder_crashed) = codes "recorder_crashed"

-- The cast to `int` leaves a percentage as it is.
unfoldable pub percent_of : Progress → ℕ
percent_of p = if ltb 0 p.total_bytes then u64 (p.bytes_received * 100) / p.total_bytes else 0

-- The recorder's snapshot reaps an exited subprocess.
unfoldable pub build_snapshot : View → World → Service → Recorder → Recorder × ServiceSnapshot
build_snapshot v w s r =
    let (r', rec) = snapshot w r in
    (
      r',
      record {
        state = state_to_string s.state;
        version = codes "1.0.0";
        job_type = job_type_of s.state;
        transport_connected = s.connected;
        heartbeat_fresh = v.heartbeat_fresh;
        vehicle_detected = s.monitor.detected;
        vehicle_armed = s.monitor.armed;
        fc_logs_count = length s.cached_fc_logs;
        fc_logs_stale = s.fc_logs_stale;
        archive_active = v.progress.active;
        archive_current_log_id = v.progress.log_id;
        archive_progress_bytes = v.progress.bytes_received;
        archive_progress_total_bytes = v.progress.total_bytes;
        archive_percent = percent_of v.progress;
        archive_bytes_per_sec = v.progress.bytes_per_sec;
        last_cycle_downloaded = s.last_cycle_result.downloaded;
        last_cycle_skipped = s.last_cycle_result.skipped;
        last_cycle_failed = s.last_cycle_result.failed;
        last_cycle_cancelled = s.last_cycle_result.cancelled;
        last_cycle_all_archived = s.last_cycle_result.all_archived;
        storage_used_bytes = total_verified_bytes v.stored_files;
        storage_limit_bytes = u64 (v.max_size_gb * 1024 * 1024 * 1024);
        storage_archived_count = get_stat s.downloader.database "flights_archived";
        recording_enabled = rec.enabled;
        recording_active = rec.active;
        recording_duration_sec = rec.duration_sec;
        recording_free_bytes = rec.free_bytes;
        recording_crash_reason = crash_text rec.crash_reason;
      },
    )
