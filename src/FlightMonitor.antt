-- ===== src/FlightMonitor.antt =====
-- src/FlightMonitor.cpp: arm state, vehicle identity and link state from heartbeats. A handler is
-- set, as the service does in its constructor; a call returns the events that it emits, in order.
pub mod Events
mod Examples
use mavlink_companion_log_se.Base.{
  ℕ, List, [], ◌∷◌, ◌++◌, Bool, true, false, ◌&&◌, ◌||◌, not, ◌==◌, if◌then◌else◌,
}

pub data Event : Type 0 where
  vehicle_detected vehicle_armed vehicle_disarmed link_lost link_restored : Event

pub record Monitor : Type 0 where
  pub armed : Bool
  pub detected : Bool
  pub lost : Bool
  pub sysid : ℕ
  pub compid : ℕ
  pub vehicle_type : ℕ
  pub autopilot : ℕ
  pub first_heartbeat : Bool

abbrev pub new_monitor : Monitor
new_monitor = record {
  armed = false;
  detected = false;
  lost = false;
  sysid = 0;
  compid = 0;
  vehicle_type = 0;
  autopilot = 0;
  first_heartbeat = true;
}

pub record Heartbeat : Type 0 where
  pub sysid : ℕ
  pub compid : ℕ
  pub vehicle_type : ℕ
  pub autopilot : ℕ
  pub armed : Bool

unfoldable pub identity_changed : Monitor → Heartbeat → Bool
identity_changed m h =
    m.detected
    && (not (m.sysid == h.sysid)
        || not (m.compid == h.compid)
        || not (m.vehicle_type == h.vehicle_type)
        || not (m.autopilot == h.autopilot))

-- The first block of `onHeartbeat`.
unfoldable pub detect : Monitor → Heartbeat → Monitor × List Event
unfolding identity_changed
detect m h =
    if not m.detected || identity_changed m h
    then (
      record m {
        sysid = h.sysid;
        compid = h.compid;
        vehicle_type = h.vehicle_type;
        autopilot = h.autopilot;
        detected = true;
        first_heartbeat = true;
      },
      vehicle_detected ∷ [],
    )
    else (m, [])

-- `onLinkRestored`, and the second block of `onHeartbeat`.
unfoldable pub on_link_restored : Monitor → Monitor × List Event
on_link_restored m = if m.lost then (record m { lost = false }, link_restored ∷ []) else (m, [])

unfoldable pub on_link_timeout : Monitor → Monitor × List Event
on_link_timeout m = if not m.lost then (record m { lost = true }, link_lost ∷ []) else (m, [])

-- The arm transition, with the early return of the first heartbeat.
unfoldable pub track_arming : Monitor → Bool → Monitor × List Event
track_arming m armed =
    if m.first_heartbeat
    then (record m { armed = armed; first_heartbeat = false }, [])
    else if armed && not m.armed
    then (record m { armed = true }, vehicle_armed ∷ [])
    else if not armed && m.armed
    then (record m { armed = false }, vehicle_disarmed ∷ [])
    else (m, [])

unfoldable pub on_heartbeat : Monitor → Heartbeat → Monitor × List Event
unfolding detect on_link_restored track_arming
on_heartbeat m h =
    let (m1, e1) = detect m h in
    let (m2, e2) = on_link_restored m1 in
    let (m3, e3) = track_arming m2 h.armed in (m3, e1 ++ (e2 ++ e3))

pub data Input : Type 0 where
  heartbeat : Heartbeat → Input
  timeout : Input
  restored : Input

unfoldable pub step : Monitor → Input → Monitor × List Event
unfolding on_heartbeat on_link_timeout on_link_restored
step m (heartbeat h) = on_heartbeat m h
step m timeout = on_link_timeout m
step m restored = on_link_restored m

-- The events of a whole history, in order.
unfoldable pub run : Monitor → List Input → List Event
unfolding step
run m [] = []
run m (i ∷ is) = (step m i).1 ++ run (step m i).0 is
