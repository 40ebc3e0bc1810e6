-- ===== src/FlightMonitor/Examples.antt =====
-- A flight: the first heartbeat, an arm, a lost link, a disarm.
use mavlink_companion_log_se.Base.{◌≡◌, refl, List, [], ◌∷◌, true, false, Bool}
use mavlink_companion_log_se.FlightMonitor.{
  new_monitor, vehicle_detected, vehicle_armed, vehicle_disarmed, link_lost, link_restored, Input,
  heartbeat, timeout, run,
}
use mavlink_companion_log_se.FlightMonitor.Events.{accepts, run_alternates}
use mavlink_companion_log_se.Base.{none}

abbrev beat : Bool → Input
beat armed =
    heartbeat (record { sysid = 1; compid = 1; vehicle_type = 2; autopilot = 3; armed = armed })

abbrev flight : List Input
flight = beat false ∷ beat true ∷ beat true ∷ timeout ∷ beat false ∷ []

flight_events :
    run new_monitor flight
    ≡ vehicle_detected ∷ vehicle_armed ∷ link_lost ∷ link_restored ∷ vehicle_disarmed ∷ []
unfolding run
flight_events = refl

run_alternates_example :
    accepts (record { arm = none; lost = false }) (run new_monitor flight) ≡ true
run_alternates_example = run_alternates flight
