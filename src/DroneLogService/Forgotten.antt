-- ===== src/DroneLogService/Forgotten.antt =====
-- src/DroneLogService.cpp: a disarm during a manual refresh or a manual erase.
use mavlink_companion_log_se.Base.{ℕ, zero, suc, ◌≡◌, Bool, sym, ap, ◌∙◌, subst, true, false, arith}
use mavlink_companion_log_se.FlightMonitor.{vehicle_disarmed}
use mavlink_companion_log_se.DroneLogService.Model.{
  State, Config, Service, on_flight_event, set_state, request_cancel, reset_cancel, is_wait_disarm,
  return_to_idle_state,
}
use mavlink_companion_log_se.DroneLogService.Process.{
  Outside, process_in, process_state, enumerate_and_cache, erase_flight_controller_logs,
  cache_enumeration_result,
}
use mavlink_companion_log_se.DroneLogService.Companion.{drain_companion_commands}
use mavlink_companion_log_se.DroneLogService.Pending.{
  OnlyCancels, Pending, drain-Pending, drain-monitor,
}
use mavlink_companion_log_se.DroneLogService.World.{process_steps, process_state-in}

process_steps-Pending :
    (cfg : Config) (o : ℕ → Outside) (n : ℕ) (s : Service)
    → ((k : ℕ) → (o k).heartbeat_fresh ≡ true)
    → Pending State.wait_arm s
    → Pending State.wait_arm (process_steps cfg o n s)
unfolding process_steps process_in
process_steps-Pending cfg o zero s fresh p = p
process_steps-Pending cfg o (suc n) s fresh p =
    let d = drain_companion_commands s in
    let p' = drain-Pending State.wait_arm s p in
    let same : process_state cfg (o 0) d ≡ d =
      process_state-in cfg (o 0) d State.wait_arm p'.state ∙ ground (arith, fresh 0) in
    process_steps-Pending cfg (λ k. o (suc k)) n (process_state cfg (o 0) d) (λ k. fresh (suc k))
      (subst (λ x. Pending State.wait_arm x) (sym same) p')

unfoldable pub is_manual : State → Bool
is_manual State.manual_refresh = true
is_manual State.manual_erase = true
is_manual _ = false

disarmed-Pending :
    (now : ℕ) (s : Service)
    → is_manual s.state ≡ true
    → OnlyCancels s.companion_commands
    → let s' = on_flight_event now vehicle_disarmed s in
      Pending s.state s' × (s'.monitor ≡ s.monitor)
unfolding on_flight_event set_state request_cancel is_wait_disarm is_manual
disarmed-Pending now s manual quiet =
    let s' = on_flight_event now vehicle_disarmed s in
    let commands : s'.companion_commands ≡ s.companion_commands = ground arith in
    (
      record {
        state = ground arith;
        requested = ground arith;
        quiet = subst OnlyCancels (sym commands) quiet;
      },
      ground arith,
    )

manual-Pending :
    (cfg : Config) (o : Outside) (st : State) (s : Service)
    → is_manual st ≡ true
    → Pending st s
    → s.monitor.armed ≡ false
    → Pending State.wait_arm (process_state cfg o s)
unfolding process_in return_to_idle_state set_state enumerate_and_cache cache_enumeration_result
    erase_flight_controller_logs reset_cancel is_manual
manual-Pending cfg o State.manual_refresh s manual p disarmed =
    subst (λ x. Pending State.wait_arm x)
      (sym (process_state-in cfg o s State.manual_refresh p.state))
      (record { state = ground arith; requested = p.requested; quiet = p.quiet })
manual-Pending cfg o State.manual_erase s manual p disarmed =
    let s' = process_in State.manual_erase cfg o s in
    let commands : s'.companion_commands ≡ s.companion_commands = ground arith in
    subst (λ x. Pending State.wait_arm x)
      (sym (process_state-in cfg o s State.manual_erase p.state))
      (record {
        state = ground arith;
        requested = ground (arith, p.requested);
        quiet = subst OnlyCancels (sym commands) p.quiet;
      })
manual-Pending cfg o st s manual p disarmed = absurd cc

-- A disarm during a manual refresh or a manual erase is noted, yet no cycle follows, if the monitor shows the
-- vehicle disarmed, the queue holds no command but cancels and no other thread acts from then on: as long as
-- heartbeats come, after any number of passes of the main loop, at least one, the service waits for the vehicle
-- to arm again, the request still standing.
pub process_steps_forgets :
    (cfg : Config) (o : ℕ → Outside) (n now : ℕ) (s : Service)
    → is_manual s.state ≡ true
    → OnlyCancels s.companion_commands
    → s.monitor.armed ≡ false
    → ((k : ℕ) → (o k).heartbeat_fresh ≡ true)
    → let s' = process_steps cfg o (suc n) (on_flight_event now vehicle_disarmed s) in
      (s'.state ≡ State.wait_arm) × (s'.archive_requested ≡ true)
unfolding process_steps
process_steps_forgets cfg o n now s manual quiet disarmed fresh =
    let (p, monitor) = disarmed-Pending now s manual quiet in
    let s' = on_flight_event now vehicle_disarmed s in
    let d = drain_companion_commands s' in
    let armed : d.monitor.armed ≡ false =
      ap (λ x. x.armed) (drain-monitor s' p.quiet ∙ monitor) ∙ disarmed in
    let w =
      process_steps-Pending cfg (λ k. o (suc k)) n (process_state cfg (o 0) d) (λ k. fresh (suc k))
        (manual-Pending cfg (o 0) s.state d manual (drain-Pending s.state s' p) armed) in
    (w.state, w.requested)
