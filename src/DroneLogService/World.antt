-- ===== src/DroneLogService/World.antt =====
-- src/DroneLogService.cpp: the threads of the service as one sequence of actions. The receiving thread
-- brings heartbeats and a link that times out, the companion's thread its requests, and the main loop
-- drains the commands and processes the state. Each handler is one action: what another thread does in
-- the middle of a long step is in the step's `Outside`.
use mavlink_companion_log_se.Base.{ℕ, zero, suc, ◌≡◌, ap, List, [], ◌∷◌, Bool, true, false, ◌||◌}
use mavlink_companion_log_se.Types.{empty_cycle, FailureReason}
use mavlink_companion_log_se.FlightMonitor.{
  Event, Heartbeat, new_monitor, on_heartbeat, on_link_timeout,
}
use mavlink_companion_log_se.Database.{Database}
use mavlink_companion_log_se.DroneLogService.Model.{
  State, Config, Service, cancel_archive, on_flight_event, request_cancel,
}
use mavlink_companion_log_se.DroneLogService.Process.{Outside, process_in, process_state}
use mavlink_companion_log_se.DroneLogService.Companion.{
  JobKind, request_companion_job, push_command, drain_companion_commands, is_erase,
}

-- The service before its first step, on the database that it finds.
abbrev pub new_service : Database → Service
new_service db = record {
  state = State.boot;
  archive_requested = false;
  disarm_time = 0;
  last_cycle_result = empty_cycle;
  consecutive_archive_failures = 0;
  cached_fc_logs = [];
  fc_logs_stale = true;
  companion_commands = [];
  manual_download_ids = [];
  manual_download_all = false;
  connected = false;
  monitor = new_monitor;
  downloader = record {
    database = db;
    cancel_requested = false;
    last_failure_reason = FailureReason.none;
  };
  erasures = 0;
  removed_files = [];
}

-- The handler that the constructor gives to the monitor, for each event of one call.
unfoldable pub on_flight_events : ℕ → List Event → Service → Service
on_flight_events now [] s = s
on_flight_events now (e ∷ es) s = on_flight_events now es (on_flight_event now e s)

-- `onMavlinkMessage` on a heartbeat that has just arrived.
unfoldable pub on_mavlink_heartbeat : ℕ → Heartbeat → Service → Service
on_mavlink_heartbeat now h s =
    let (m, events) = on_heartbeat s.monitor h in
    on_flight_events now events (record s { monitor = m })

unfoldable pub on_stale_link : ℕ → Service → Service
on_stale_link now s =
    let (m, events) = on_link_timeout s.monitor in
    on_flight_events now events (record s { monitor = m })

pub data Action : Type 0 where
  heartbeat : ℕ → Heartbeat → Action
  stale_link : ℕ → Action
  request_job : JobKind → List ℕ → Bool → Action
  request_archive_cancel : Action
  drain : Action
  process : Outside → Action

unfoldable pub perform : Config → Action → Service → Service
perform cfg (heartbeat now h) s = on_mavlink_heartbeat now h s
perform cfg (stale_link now) s = on_stale_link now s
perform cfg (request_job kind ids all) s = (request_companion_job kind ids all s).0
perform cfg request_archive_cancel s = push_command cancel_archive (request_cancel s)
perform cfg drain s = drain_companion_commands s
perform cfg (process o) s = process_state cfg o s

unfoldable pub asks_erase : Action → Bool
asks_erase (request_job kind ids all) = is_erase kind
asks_erase _ = false

-- The services that can be, with whether the companion has asked for an erase on the way.
pub data Reachable (cfg : Config) (db : Database) : Bool → Service → Type 0 where
  starts : Reachable cfg db false (new_service db)
  acts :
      {asked : Bool} {s : Service} (a : Action)
      → Reachable cfg db asked s
      → Reachable cfg db (asked || asks_erase a) (perform cfg a s)

-- The passes of the main loop alone, with what the outside answers in each.
unfoldable pub process_steps : Config → (ℕ → Outside) → ℕ → Service → Service
process_steps cfg o zero s = s
process_steps cfg o (suc n) s =
    process_steps cfg (λ k. o (suc k)) n (process_state cfg (o 0) (drain_companion_commands s))

pub process_state-in :
    (cfg : Config) (o : Outside) (s : Service) (st : State)
    → s.state ≡ st
    → process_state cfg o s ≡ process_in st cfg o s
unfolding process_state
process_state-in cfg o s st e = ap (λ at. process_in at cfg o s) e
