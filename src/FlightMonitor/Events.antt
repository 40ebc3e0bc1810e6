-- ===== src/FlightMonitor/Events.antt =====
-- Which events a monitor emits: exactly for one heartbeat, and over a whole history.
use mavlink_companion_log_se.Base.{
  ◌≡◌, refl, List, [], ◌∷◌, ◌++◌, Bool, true, false, ◌&&◌, ◌||◌, not, if◌then◌else◌, ◌⊎◌, inl, inr,
  ◌∙◌, arith, Option, none, some, Bool-cases, Option-cases,
}
use mavlink_companion_log_se.FlightMonitor.{
  Monitor, new_monitor, Heartbeat, Event, vehicle_detected, vehicle_armed, vehicle_disarmed,
  link_lost, link_restored, Input, heartbeat, timeout, restored, identity_changed, detect,
  on_link_restored, on_link_timeout, track_arming, on_heartbeat, step, run,
}

-- After a heartbeat the monitor holds the sender's identity and arm state, and the link is up. An arm
-- or disarm event comes exactly when the same vehicle, heard before, reports the other arm state;
-- a new or changed vehicle is announced instead, whatever its arm state.
pub on_heartbeat_lem :
    (m : Monitor) (h : Heartbeat)
    → let r = on_heartbeat m h in
      let fresh = not m.detected || identity_changed m h || m.first_heartbeat in
      (r.0.armed ≡ h.armed)
      × (r.0.detected ≡ true)
      × (r.0.lost ≡ false)
      × (r.0.first_heartbeat ≡ false)
      × (r.0.sysid ≡ h.sysid)
      × (r.0.compid ≡ h.compid)
      × (r.1
          ≡ (if not m.detected || identity_changed m h then vehicle_detected ∷ [] else [])
            ++ (if m.lost then link_restored ∷ [] else [])
            ++ (if not fresh && h.armed && not m.armed
                then vehicle_armed ∷ []
                else if not fresh && not h.armed && m.armed
                then vehicle_disarmed ∷ []
                else []))
unfolding on_heartbeat
on_heartbeat_lem m h = ground arith

-- An observer that sees the events alone. It knows the arm state, if it knows it, and the link state,
-- and rejects an event that repeats what it knows.
pub record Observer : Type 0 where
  pub arm : Option Bool
  pub lost : Bool

unfoldable pub observe : Observer → Event → Option Observer
observe o vehicle_detected = some (record o { arm = none })
observe o vehicle_armed = elim o.arm [ some true ↦ none | _ ↦ some (record o { arm = some true }) ]
observe o vehicle_disarmed = elim o.arm [
  | some false ↦ none
  | _ ↦ some (record o { arm = some false })
]
observe o link_lost = if o.lost then none else some (record o { lost = true })
observe o link_restored = if o.lost then some (record o { lost = false }) else none

unfoldable pub accepts : Observer → List Event → Bool
unfolding observe
accepts o [] = true
accepts o (e ∷ es) = elim (observe o e) [ none ↦ false | some o' ↦ accepts o' es ]

-- What the observer knows is true of the monitor.
abbrev Agrees : Observer → Monitor → Type 0
Agrees o m =
    (o.lost ≡ m.lost) × ((o.arm ≡ none) ⊎ ((o.arm ≡ some m.armed) × (m.first_heartbeat ≡ false)))

after : Observer → List Event → Option Observer
after o [] = some o
after o (e ∷ es) = elim (observe o e) [ none ↦ none | some o' ↦ after o' es ]

-- The observer accepts the events and agrees with the monitor again.
abbrev Follows : Observer → Monitor × List Event → Type 0
Follows o r = (o' : Observer) × (after o r.1 ≡ some o') × Agrees o' r.0

detect-Follows : (o : Observer) (m : Monitor) (h : Heartbeat) → Agrees o m → Follows o (detect m h)
unfolding detect after observe
detect-Follows o m h a = elim (Bool-cases (not m.detected || identity_changed m h)) [
  | inl new ↦ rw new (record o { arm = none }, refl, (a.0, inl refl))
  | inr known ↦ rw known (o, refl, a)
]

on_link_restored-Follows :
    (o : Observer) (m : Monitor) → Agrees o m → Follows o (on_link_restored m)
unfolding on_link_restored after observe
on_link_restored-Follows o m a = (record o { lost = false }, ground arith, ground arith)

on_link_timeout-Follows : (o : Observer) (m : Monitor) → Agrees o m → Follows o (on_link_timeout m)
unfolding on_link_timeout after observe
on_link_timeout-Follows o m a = (record o { lost = true }, ground arith, ground arith)

-- What the observer knows once the arm state has been tracked.
arm_known : Observer → Monitor → Bool → Option Bool
arm_known o m armed =
    if m.first_heartbeat || not ((armed && not m.armed) || (not armed && m.armed))
    then o.arm
    else some armed

track_arming-Follows :
    (o : Observer) (m : Monitor) (armed : Bool) → Agrees o m → Follows o (track_arming m armed)
unfolding track_arming after observe arm_known
track_arming-Follows o m armed a =
    (record o { arm = arm_known o m armed }, ground arith, ground arith)

after-append :
    (o o' : Observer) (xs ys : List Event) → after o xs ≡ some o' → after o (xs ++ ys) ≡ after o' ys
unfolding after
after-append o o' [] ys e = ground arith
after-append o o' (x ∷ xs) ys e = elim (Option-cases (observe o x)) [
  | inl bad ↦ ground arith
  | inr (p, good) ↦ ground (arith, after-append p o' xs ys)
]

step-Follows : (o : Observer) (m : Monitor) (i : Input) → Agrees o m → Follows o (step m i)
unfolding step on_heartbeat
step-Follows o m (heartbeat h) a =
    let (o1, e1, a1) = detect-Follows o m h a in
    let (o2, e2, a2) = on_link_restored-Follows o1 (detect m h).0 a1 in
    let (o3, e3, a3) = track_arming-Follows o2 (on_link_restored (detect m h).0).0 h.armed a2 in
    (o3, after-append o o1 _ _ e1 ∙ after-append o1 o2 _ _ e2 ∙ e3, a3)
step-Follows o m timeout a = on_link_timeout-Follows o m a
step-Follows o m restored a = on_link_restored-Follows o m a

accepts-after :
    (o o' : Observer) (es fs : List Event)
    → after o es ≡ some o'
    → accepts o (es ++ fs) ≡ accepts o' fs
unfolding after accepts
accepts-after o o' [] fs e = ground arith
accepts-after o o' (x ∷ xs) fs e = elim (Option-cases (observe o x)) [
  | inl bad ↦ ground arith
  | inr (p, good) ↦ ground (arith, accepts-after p o' xs fs)
]

run-accepts :
    (o : Observer) (m : Monitor) (is : List Input) → Agrees o m → accepts o (run m is) ≡ true
unfolding run accepts
run-accepts o m [] a = refl
run-accepts o m (i ∷ is) a =
    let (o', e, a') = step-Follows o m i a in
    accepts-after o o' (step m i).1 (run (step m i).0 is) e ∙ run-accepts o' (step m i).0 is a'

-- Over any history of heartbeats and link reports, the events never repeat what is known: between
-- two arm events of one vehicle there is a disarm event and the other way round, and losses and
-- restorations of the link alternate, starting with a loss.
pub run_alternates :
    (is : List Input) → accepts (record { arm = none; lost = false }) (run new_monitor is) ≡ true
run_alternates is = run-accepts _ new_monitor is (refl, inl refl)
