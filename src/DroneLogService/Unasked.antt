-- ===== src/DroneLogService/Unasked.antt =====
-- src/DroneLogService.cpp: as long as the companion asks for no erase, none is running or queued.
use mavlink_companion_log_se.Base.{
  ℕ, ◌≡◌, refl, ap, ◌∙◌, List, [], ◌∷◌, ◌++◌, Bool, true, false, not, if◌then◌else◌, arith,
}
use mavlink_companion_log_se.FlightMonitor.{
  Event, on_heartbeat, on_link_timeout, vehicle_detected, vehicle_armed, vehicle_disarmed,
  link_lost, link_restored,
}
use mavlink_companion_log_se.Database.{Database}
use mavlink_companion_log_se.DroneLogService.Model.{
  State, Command, start_archive, cancel_archive, refresh_logs, download_logs, erase_all_logs,
  Config, Service, on_flight_event, set_state, request_cancel, reset_cancel, is_archive_busy,
  handle_connection_lost, return_to_idle_state,
}
use mavlink_companion_log_se.DroneLogService.Process.{
  Outside, process_in, process_state, run_archive, run_erase_all, run_manual_download, run_cleanup,
  enumerate_and_cache, archive_entries, reconnect, erase_flight_controller_logs,
  cache_enumeration_result,
}
use mavlink_companion_log_se.DroneLogService.Companion.{
  JobKind, JobOutcome, split_ids, no_ids, request_companion_job, request_download, queue_job,
  push_command, drain_companion_commands, run_command, run_commands, is_erase,
}
use mavlink_companion_log_se.DroneLogService.World.{
  Action, heartbeat, stale_link, request_job, request_archive_cancel, drain, process, perform,
  on_flight_events, on_mavlink_heartbeat, on_stale_link,
}
use mavlink_companion_log_se.DroneLogService.World.{Reachable, starts, acts, asks_erase}
use mavlink_companion_log_se.DroneLogService.Outcome.{evaluate_archive_outcome-Kept}

unfoldable pub is_manual_erase : State → Bool
is_manual_erase State.manual_erase = true
is_manual_erase _ = false

unfoldable pub has_erase : List Command → Bool
has_erase [] = false
has_erase (erase_all_logs ∷ cs) = true
has_erase (c ∷ cs) = has_erase cs

-- No erase is running or queued.
pub record Unasked (s : Service) : Type 0 where
  pub state : is_manual_erase s.state ≡ false
  pub queue : has_erase s.companion_commands ≡ false

on_flight_event-Unasked :
    (now : ℕ) (e : Event) (s : Service) → Unasked s → Unasked (on_flight_event now e s)
unfolding on_flight_event set_state request_cancel is_manual_erase handle_connection_lost
on_flight_event-Unasked now vehicle_detected s u = u
on_flight_event-Unasked now vehicle_armed s u = record {
  state = ground (arith, u.state);
  queue = ground (arith, u.queue);
}
on_flight_event-Unasked now vehicle_disarmed s u = record {
  state = ground (arith, u.state);
  queue = ground (arith, u.queue);
}
on_flight_event-Unasked now link_lost s u = record {
  state = ground (arith, u.state);
  queue = ground (arith, u.queue);
}
on_flight_event-Unasked now link_restored s u = record {
  state = ground (arith, u.state);
  queue = ground (arith, u.queue);
}

on_flight_events-Unasked :
    (now : ℕ) (es : List Event) (s : Service) → Unasked s → Unasked (on_flight_events now es s)
unfolding on_flight_events
on_flight_events-Unasked now [] s u = u
on_flight_events-Unasked now (e ∷ es) s u =
    on_flight_events-Unasked now es _ (on_flight_event-Unasked now e s u)

has_erase-snoc :
    (cs : List Command) (c : Command)
    → has_erase cs ≡ false
    → has_erase (c ∷ []) ≡ false
    → has_erase (cs ++ c ∷ []) ≡ false
unfolding has_erase
has_erase-snoc [] c h k = k
has_erase-snoc (erase_all_logs ∷ cs) c h k = h
has_erase-snoc (x ∷ cs) c h k = has_erase-snoc cs c h k

run_commands-Unasked :
    (cs : List Command) (s : Service)
    → has_erase cs ≡ false
    → Unasked s
    → Unasked (run_commands cs s)
unfolding run_commands run_command has_erase set_state reset_cancel request_cancel is_manual_erase
run_commands-Unasked [] s h u = u
run_commands-Unasked (start_archive ∷ cs) s h u =
    run_commands-Unasked cs _ h
      (record { state = ground (arith, u.state); queue = ground (arith, u.queue) })
run_commands-Unasked (cancel_archive ∷ cs) s h u =
    run_commands-Unasked cs _ h (record { state = u.state; queue = u.queue })
run_commands-Unasked (refresh_logs ∷ cs) s h u =
    run_commands-Unasked cs _ h (record { state = refl; queue = u.queue })
run_commands-Unasked (download_logs ids all ∷ cs) s h u =
    run_commands-Unasked cs _ h (record { state = refl; queue = u.queue })
run_commands-Unasked (erase_all_logs ∷ cs) s h u = absurd cc

Unasked-push_command :
    (c : Command) (s : Service)
    → has_erase (c ∷ []) ≡ false
    → Unasked s
    → Unasked (push_command c s)
unfolding push_command
Unasked-push_command c s h u = record {
  state = u.state;
  queue = has_erase-snoc s.companion_commands c u.queue h;
}

Unasked-outcome :
    (b : Bool) (x y : Service × JobOutcome)
    → Unasked x.0
    → Unasked y.0
    → Unasked (if b then x else y).0
Unasked-outcome true x y p q = p
Unasked-outcome false x y p q = q

queue_job-Unasked :
    (kind : JobKind) (ids : List ℕ) (all : Bool) (s : Service)
    → Unasked s
    → Unasked (queue_job kind ids all s).0
unfolding queue_job request_download has_erase
queue_job-Unasked JobKind.archive ids all s u = Unasked-push_command start_archive s refl u
queue_job-Unasked JobKind.refresh ids all s u = Unasked-push_command refresh_logs s refl u
queue_job-Unasked JobKind.download ids all s u =
    let found = (split_ids s.cached_fc_logs ids).0 in
    Unasked-outcome all _ _ (Unasked-push_command (download_logs [] true) s refl u) (
      Unasked-outcome (no_ids found) _ _ u
        (Unasked-push_command (download_logs found false) s refl u))
queue_job-Unasked JobKind.erase_all ids all s u = u

request_companion_job-Unasked :
    (kind : JobKind) (ids : List ℕ) (all : Bool) (s : Service)
    → is_erase kind ≡ false
    → Unasked s
    → Unasked (request_companion_job kind ids all s).0
unfolding request_companion_job
request_companion_job-Unasked kind ids all s other u = rw other (
    Unasked-outcome (is_archive_busy s.state) _ _ u (
      Unasked-outcome s.monitor.armed _ _ u
        (Unasked-outcome (not s.connected) _ _ u (queue_job-Unasked kind ids all s u))))

handle_connection_lost-Unasked : (s : Service) → Unasked s → Unasked (handle_connection_lost s)
unfolding handle_connection_lost is_manual_erase
handle_connection_lost-Unasked s u = record {
  state = ground (arith, u.state);
  queue = ground (arith, u.queue);
}

process_in-Unasked :
    (cfg : Config) (o : Outside) (s : Service) (st : State)
    → Unasked s
    → Unasked (process_in st cfg o s)
unfolding process_in run_archive run_erase_all run_manual_download run_cleanup set_state
    is_manual_erase reconnect archive_entries enumerate_and_cache cache_enumeration_result
    erase_flight_controller_logs return_to_idle_state reset_cancel
process_in-Unasked cfg o s State.connect u = record {
  state = ground (arith, u.state);
  queue = ground (arith, u.queue);
}
process_in-Unasked cfg o s State.wait_heartbeat u =
    let lost = handle_connection_lost-Unasked s u in
    record {
      state = ground (arith, u.state, lost.state);
      queue = ground (arith, u.queue, lost.queue);
    }
process_in-Unasked cfg o s State.wait_arm u =
    let lost = handle_connection_lost-Unasked s u in
    record {
      state = ground (arith, u.state, lost.state);
      queue = ground (arith, u.queue, lost.queue);
    }
process_in-Unasked cfg o s State.wait_disarm u =
    let lost = handle_connection_lost-Unasked s u in
    record {
      state = ground (arith, u.state, lost.state);
      queue = ground (arith, u.queue, lost.queue);
    }
process_in-Unasked cfg o s State.cleanup u = record {
  state = ground (arith, u.state);
  queue = ap has_erase (evaluate_archive_outcome-Kept cfg o.connects _).commands ∙ u.queue;
}
process_in-Unasked cfg o s st u = record {
  state = ground (arith, u.state);
  queue = ground (arith, u.queue);
}

perform-Unasked :
    (cfg : Config) (a : Action) (s : Service)
    → asks_erase a ≡ false
    → Unasked s
    → Unasked (perform cfg a s)
unfolding perform asks_erase on_mavlink_heartbeat on_stale_link process_state
    drain_companion_commands request_cancel has_erase
perform-Unasked cfg (heartbeat now h) s quiet u =
    on_flight_events-Unasked now (on_heartbeat s.monitor h).1 _
      (record { state = u.state; queue = u.queue })
perform-Unasked cfg (stale_link now) s quiet u =
    on_flight_events-Unasked now (on_link_timeout s.monitor).1 _
      (record { state = u.state; queue = u.queue })
perform-Unasked cfg (request_job kind ids all) s quiet u =
    request_companion_job-Unasked kind ids all s quiet u
perform-Unasked cfg request_archive_cancel s quiet u =
    Unasked-push_command cancel_archive (request_cancel s) refl
      (record { state = u.state; queue = u.queue })
perform-Unasked cfg drain s quiet u =
    run_commands-Unasked s.companion_commands _ u.queue (record { state = u.state; queue = refl })
perform-Unasked cfg (process o) s quiet u = process_in-Unasked cfg o s s.state u

pub Reachable-Unasked :
    {cfg : Config} {db : Database} {asked : Bool} {s : Service}
    → Reachable cfg db asked s
    → asked ≡ false
    → Unasked s
unfolding has_erase is_manual_erase
Reachable-Unasked starts no_one = record { state = refl; queue = refl }
Reachable-Unasked (acts a r) no_one =
    perform-Unasked _ a _ (ground arith) (Reachable-Unasked r (ground arith))
