-- ===== src/DroneLogService/Calm.antt =====
-- src/DroneLogService.cpp: what the handlers of events, requests and commands leave alone.
use mavlink_companion_log_se.Base.{
  ℕ, ◌≡◌, refl, List, [], ◌∷◌, Bool, true, false, ◌||◌, not, if◌then◌else◌, arith,
}
use mavlink_companion_log_se.FlightMonitor.{
  Monitor, Event, on_heartbeat, on_link_timeout, vehicle_detected, vehicle_armed, vehicle_disarmed,
  link_lost, link_restored,
}
use mavlink_companion_log_se.DroneLogService.Model.{
  State, Command, start_archive, cancel_archive, refresh_logs, download_logs, erase_all_logs,
  Config, Service, on_flight_event, is_archive_busy, handle_connection_lost, ignores_loss,
  is_wait_arm, is_wait_disarm, is_connection_lost,
}
use mavlink_companion_log_se.DroneLogService.Companion.{
  JobKind, JobOutcome, split_ids, no_ids, request_companion_job, request_download, request_erase,
  queue_job, push_command, drain_companion_commands, run_command, run_commands, is_erase,
}
use mavlink_companion_log_se.DroneLogService.World.{
  Action, heartbeat, stale_link, request_job, request_archive_cancel, drain, process, perform,
  on_flight_events, on_mavlink_heartbeat, on_stale_link,
}
use mavlink_companion_log_se.DroneLogService.CalmSteps.{
  Calm, Calm-if, Calm-noted, Calm-refl, Calm-request_cancel, Calm-reset_cancel, Calm-set_state,
  Calm-trans, is_erase_all, noted,
}

handle_connection_lost-Calm : (s : Service) → Calm s (handle_connection_lost s)
unfolding handle_connection_lost is_erase_all
handle_connection_lost-Calm s = Calm-if (ignores_loss s.state) (Calm-refl s) (record {
  result = refl;
  logs = refl;
  database = refl;
  erasures = refl;
  state = λ h. absurd (ground arith);
})

pub on_flight_event-Calm : (now : ℕ) (e : Event) (s : Service) → Calm s (on_flight_event now e s)
unfolding on_flight_event is_erase_all
on_flight_event-Calm now vehicle_detected s = Calm-refl s
on_flight_event-Calm now vehicle_armed s =
    Calm-if (is_wait_arm s.state) (Calm-set_state State.wait_disarm s refl (Calm-refl s))
      (Calm-if (is_archive_busy s.state) (Calm-request_cancel (Calm-refl s)) (Calm-refl s))
on_flight_event-Calm now vehicle_disarmed s =
    let calm = Calm-noted now s in
    Calm-if (is_wait_disarm s.state) (Calm-set_state State.delay (noted now s) refl calm)
      (Calm-if (is_archive_busy s.state) (Calm-request_cancel calm) calm)
on_flight_event-Calm now link_lost s = handle_connection_lost-Calm s
on_flight_event-Calm now link_restored s =
    Calm-if (is_connection_lost s.state) (Calm-set_state State.connect s refl (Calm-refl s))
      (Calm-refl s)

on_flight_events-Calm :
    (now : ℕ) (es : List Event) (s : Service) → Calm s (on_flight_events now es s)
unfolding on_flight_events
on_flight_events-Calm now [] s = Calm-refl s
on_flight_events-Calm now (e ∷ es) s =
    Calm-trans (on_flight_event-Calm now e s)
      (on_flight_events-Calm now es (on_flight_event now e s))

Calm-requested : (s : Service) → Calm s (record s { archive_requested = false })
Calm-requested s = record {
  result = refl;
  logs = refl;
  database = refl;
  erasures = refl;
  state = λ h. h;
}

Calm-selected :
    (ids : List ℕ) (all : Bool) (s : Service)
    → Calm s (record s { manual_download_ids = ids; manual_download_all = all })
Calm-selected ids all s = record {
  result = refl;
  logs = refl;
  database = refl;
  erasures = refl;
  state = λ h. h;
}

Calm-emptied : (s : Service) → Calm s (record s { companion_commands = [] })
Calm-emptied s = record {
  result = refl;
  logs = refl;
  database = refl;
  erasures = refl;
  state = λ h. h;
}

Calm-monitor : (m : Monitor) (s : Service) → Calm s (record s { monitor = m })
Calm-monitor m s = record {
  result = refl;
  logs = refl;
  database = refl;
  erasures = refl;
  state = λ h. h;
}

Calm-push_command : (c : Command) {s s' : Service} → Calm s s' → Calm s (push_command c s')
unfolding push_command
Calm-push_command c p = record {
  result = p.result;
  logs = p.logs;
  database = p.database;
  erasures = p.erasures;
  state = p.state;
}

run_command-Calm : (c : Command) (s : Service) → Calm s (run_command c s)
unfolding run_command is_erase_all
run_command-Calm start_archive s =
    Calm-if (is_archive_busy s.state || (s.monitor.armed || not s.connected)) (Calm-refl s)
      (Calm-set_state State.enumerate _ refl (Calm-reset_cancel (Calm-requested s)))
run_command-Calm cancel_archive s = Calm-request_cancel (Calm-refl s)
run_command-Calm refresh_logs s =
    Calm-set_state State.manual_refresh _ refl (Calm-reset_cancel (Calm-refl s))
run_command-Calm (download_logs ids all) s =
    Calm-set_state State.manual_download _ refl (Calm-reset_cancel (Calm-selected ids all s))
run_command-Calm erase_all_logs s =
    Calm-set_state State.manual_erase _ refl (Calm-reset_cancel (Calm-refl s))

run_commands-Calm : (cs : List Command) (s : Service) → Calm s (run_commands cs s)
unfolding run_commands
run_commands-Calm [] s = Calm-refl s
run_commands-Calm (c ∷ cs) s =
    Calm-trans (run_command-Calm c s) (run_commands-Calm cs (run_command c s))

drain_companion_commands-Calm : (s : Service) → Calm s (drain_companion_commands s)
unfolding drain_companion_commands
drain_companion_commands-Calm s =
    Calm-trans (Calm-emptied s)
      (run_commands-Calm s.companion_commands (record s { companion_commands = [] }))

Calm-outcome :
    {s : Service} (b : Bool) (x y : Service × JobOutcome)
    → Calm s x.0
    → Calm s y.0
    → Calm s (if b then x else y).0
Calm-outcome true x y p q = p
Calm-outcome false x y p q = q

queue_job-Calm :
    (kind : JobKind) (ids : List ℕ) (all : Bool) (s : Service) → Calm s (queue_job kind ids all s).0
unfolding queue_job request_download
queue_job-Calm JobKind.archive ids all s = Calm-push_command start_archive (Calm-refl s)
queue_job-Calm JobKind.refresh ids all s = Calm-push_command refresh_logs (Calm-refl s)
queue_job-Calm JobKind.download ids all s =
    let found = (split_ids s.cached_fc_logs ids).0 in
    Calm-outcome all _ _ (Calm-push_command (download_logs [] true) (Calm-refl s)) (
      Calm-outcome (no_ids found) _ _ (Calm-refl s)
        (Calm-push_command (download_logs found false) (Calm-refl s)))
queue_job-Calm JobKind.erase_all ids all s = Calm-refl s

request_companion_job-Calm :
    (kind : JobKind) (ids : List ℕ) (all : Bool) (s : Service)
    → Calm s (request_companion_job kind ids all s).0
unfolding request_companion_job request_erase
request_companion_job-Calm kind ids all s =
    Calm-outcome (is_erase kind) _ _
      (Calm-outcome (not s.connected) _ _ (Calm-refl s) (
        Calm-push_command erase_all_logs
          (Calm-if (is_archive_busy s.state) (Calm-request_cancel (Calm-refl s)) (Calm-refl s))))
      (Calm-outcome (is_archive_busy s.state) _ _ (Calm-refl s) (
        Calm-outcome s.monitor.armed _ _ (Calm-refl s)
          (Calm-outcome (not s.connected) _ _ (Calm-refl s) (queue_job-Calm kind ids all s))))

unfoldable pub is_process : Action → Bool
is_process (process o) = true
is_process _ = false

-- Every action but a step of the main loop.
pub perform-Calm :
    (cfg : Config) (a : Action) (s : Service) → is_process a ≡ false → Calm s (perform cfg a s)
unfolding perform on_mavlink_heartbeat on_stale_link is_process
perform-Calm cfg (heartbeat now h) s other =
    Calm-trans (Calm-monitor (on_heartbeat s.monitor h).0 s)
      (on_flight_events-Calm now (on_heartbeat s.monitor h).1 _)
perform-Calm cfg (stale_link now) s other =
    Calm-trans (Calm-monitor (on_link_timeout s.monitor).0 s)
      (on_flight_events-Calm now (on_link_timeout s.monitor).1 _)
perform-Calm cfg (request_job kind ids all) s other = request_companion_job-Calm kind ids all s
perform-Calm cfg request_archive_cancel s other =
    Calm-push_command cancel_archive (Calm-request_cancel (Calm-refl s))
perform-Calm cfg drain s other = drain_companion_commands-Calm s
perform-Calm cfg (process o) s other = absurd (cc)
