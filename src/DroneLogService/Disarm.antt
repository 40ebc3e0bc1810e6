-- ===== src/DroneLogService/Disarm.antt =====
-- src/DroneLogService.cpp: a disarm or a lost link while a job runs.
use mavlink_companion_log_se.Base.{
  ℕ, suc, ◌≤◌, ◌≡◌, refl, sym, ap, ◌∙◌, subst, Bool, true, false, ◌||◌, if◌then◌else◌, arith, inl,
  inr, ◌⊎◌,
}
use mavlink_companion_log_se.FlightMonitor.{
  Event, vehicle_detected, vehicle_armed, vehicle_disarmed,
}
use mavlink_companion_log_se.DroneLogService.Model.{
  State, Config, Service, on_flight_event, set_state, request_cancel, is_archive_busy,
  handle_connection_lost, ignores_loss, is_wait_arm, is_wait_disarm, is_connection_lost,
}
use mavlink_companion_log_se.DroneLogService.Process.{
  Outside, process_in, run_archive, run_erase_all, run_manual_download, run_cleanup,
  enumerate_and_cache, archive_entries, erase_flight_controller_logs, cache_enumeration_result,
}
use mavlink_companion_log_se.DroneLogService.World.{process_steps, process_state-in}
use mavlink_companion_log_se.DroneLogService.Companion.{drain_companion_commands}
use mavlink_companion_log_se.DroneLogService.Pending.{OnlyCancels, Pending, drain-Pending}
use mavlink_companion_log_se.DroneLogService.Outcome.{evaluate_archive_outcome-Kept}

unfoldable pub is_arming : Event → Bool
is_arming vehicle_armed = true
is_arming vehicle_disarmed = true
is_arming _ = false

busy-others :
    (st : State)
    → is_archive_busy st ≡ true
    → (is_wait_arm st ≡ false)
      × (is_wait_disarm st ≡ false)
      × (is_connection_lost st ≡ false)
      × (ignores_loss st ≡ true)
unfolding is_archive_busy is_wait_arm is_wait_disarm is_connection_lost ignores_loss
busy-others st busy = ground arith

-- While a job runs, no flight event changes the state or drops the transport, a lost link included;
-- arming and disarming ask the job to cancel, and the other events do not.
pub on_flight_event_busy :
    (now : ℕ) (e : Event) (s : Service)
    → is_archive_busy s.state ≡ true
    → let s' = on_flight_event now e s in
      (s'.state ≡ s.state)
      × (s'.connected ≡ s.connected)
      × (s'.downloader.cancel_requested ≡ (s.downloader.cancel_requested || is_arming e))
unfolding on_flight_event set_state request_cancel handle_connection_lost is_arming
on_flight_event_busy now vehicle_detected s busy = ground arith
on_flight_event_busy now e s busy = ground (arith, busy-others s.state busy)

-- Within `k` passes of the main loop the service waits for the delay of a fresh cycle.
abbrev pub Soon : ℕ → Config → (ℕ → Outside) → Service → Type 0
Soon k cfg o s = (n : ℕ) × (n ≤ k) × ((process_steps cfg o n s).state ≡ State.delay)

Soon-more :
    (k : ℕ) (cfg : Config) (o : ℕ → Outside) (s : Service) → Soon k cfg o s → Soon (suc k) cfg o s
Soon-more k cfg o s (n, le, at) = (n, omega arith, at)

-- A pass that starts in a state with a cycle pending, from what it does once the commands are drained.
Soon-step :
    (k : ℕ) (cfg : Config) (o : ℕ → Outside) (s : Service) (st : State)
    → Pending st s
    → ((d : Service) → Pending st d → Soon k cfg (λ i. o (suc i)) (process_in st cfg (o 0) d))
    → Soon (suc k) cfg o s
unfolding process_steps
Soon-step k cfg o s st p next =
    let d = drain_companion_commands s in
    let p' = drain-Pending st s p in
    let (n, le, at) = next d p' in
    (
      suc n,
      omega arith,
      ap (λ x. (process_steps cfg (λ i. o (suc i)) n x).state)
            (process_state-in cfg (o 0) d st p'.state)
          ∙ at,
    )

delay-if : (b : Bool) (other : State) → b ≡ true → (if b then State.delay else other) ≡ State.delay
delay-if true other e = refl
delay-if false other e = absurd cc

Soon-cleanup :
    (cfg : Config) (o : ℕ → Outside) (s : Service) → Pending State.cleanup s → Soon 1 cfg o s
unfolding process_steps process_in run_cleanup set_state
Soon-cleanup cfg o s p = Soon-step 0 cfg o s State.cleanup p (λ d p'. (
  0,
  omega arith,
  delay-if _ _ ((evaluate_archive_outcome-Kept cfg (o 0).connects _).requested ∙ p'.requested),
))

run_erase_all-Pending :
    (o : Outside) (s : Service)
    → Pending State.erase_all s
    → Pending State.cleanup (run_erase_all o s)
unfolding run_erase_all erase_flight_controller_logs set_state
run_erase_all-Pending o s p =
    let commands : (run_erase_all o s).companion_commands ≡ s.companion_commands = ground arith in
    let requested : (run_erase_all o s).archive_requested ≡ s.archive_requested = ground arith in
    record {
      state = ground arith;
      requested = requested ∙ p.requested;
      quiet = subst OnlyCancels (sym commands) p.quiet;
    }

Soon-erase_all :
    (cfg : Config) (o : ℕ → Outside) (s : Service) → Pending State.erase_all s → Soon 2 cfg o s
unfolding process_in
Soon-erase_all cfg o s p = Soon-step 1 cfg o s State.erase_all p (λ d p'.
    Soon-cleanup cfg (λ i. o (suc i)) (run_erase_all (o 0) d) (run_erase_all-Pending (o 0) d p'))

run_archive-next :
    (cfg : Config) (o : Outside) (s : Service)
    → ((run_archive cfg o s).state ≡ State.erase_all)
      ⊎ ((run_archive cfg o s).state ≡ State.cleanup)
unfolding run_archive set_state archive_entries enumerate_and_cache cache_enumeration_result
run_archive-next cfg o s = ground arith

Soon-archive :
    (cfg : Config) (o : ℕ → Outside) (s : Service) → Pending State.archive s → Soon 3 cfg o s
unfolding process_in run_archive set_state archive_entries enumerate_and_cache
    cache_enumeration_result
Soon-archive cfg o s p = Soon-step 2 cfg o s State.archive p (λ d p'.
    elim (run_archive-next cfg (o 0) d) [
      | inl erasing ↦
          Soon-erase_all cfg (λ i. o (suc i)) (run_archive cfg (o 0) d)
            (record { state = erasing; requested = p'.requested; quiet = p'.quiet })
      | inr cleaning ↦
          Soon-more 1 cfg (λ i. o (suc i)) (run_archive cfg (o 0) d)
            (Soon-cleanup cfg (λ i. o (suc i)) (run_archive cfg (o 0) d)
              (record { state = cleaning; requested = p'.requested; quiet = p'.quiet }))
    ])

Soon-enumerate :
    (cfg : Config) (o : ℕ → Outside) (s : Service) → Pending State.enumerate s → Soon 4 cfg o s
unfolding process_in set_state
Soon-enumerate cfg o s p = Soon-step 3 cfg o s State.enumerate p (λ d p'.
    Soon-archive cfg (λ i. o (suc i)) (set_state State.archive d)
      (record { state = refl; requested = p'.requested; quiet = p'.quiet }))

Soon-manual_download :
    (cfg : Config) (o : ℕ → Outside) (s : Service)
    → Pending State.manual_download s
    → Soon 2 cfg o s
unfolding process_in run_manual_download set_state archive_entries enumerate_and_cache
    cache_enumeration_result
Soon-manual_download cfg o s p = Soon-step 1 cfg o s State.manual_download p (λ d p'.
    Soon-cleanup cfg (λ i. o (suc i)) (run_manual_download cfg (o 0) d)
      (record { state = refl; requested = p'.requested; quiet = p'.quiet }))

-- The states of an archive cycle and of a manual download.
unfoldable pub is_in_cycle : State → Bool
is_in_cycle State.enumerate = true
is_in_cycle State.archive = true
is_in_cycle State.erase_all = true
is_in_cycle State.manual_download = true
is_in_cycle State.cleanup = true
is_in_cycle _ = false

Soon-in_cycle :
    (cfg : Config) (o : ℕ → Outside) (s : Service) (st : State)
    → is_in_cycle st ≡ true
    → Pending st s
    → Soon 4 cfg o s
unfolding is_in_cycle
Soon-in_cycle cfg o s State.enumerate in_cycle p = Soon-enumerate cfg o s p
Soon-in_cycle cfg o s State.archive in_cycle p = Soon-more 3 cfg o s (Soon-archive cfg o s p)
Soon-in_cycle cfg o s State.erase_all in_cycle p =
    Soon-more 3 cfg o s (Soon-more 2 cfg o s (Soon-erase_all cfg o s p))
Soon-in_cycle cfg o s State.manual_download in_cycle p =
    Soon-more 3 cfg o s (Soon-more 2 cfg o s (Soon-manual_download cfg o s p))
Soon-in_cycle cfg o s State.cleanup in_cycle p =
    Soon-more 3 cfg o s (Soon-more 2 cfg o s (Soon-more 1 cfg o s (Soon-cleanup cfg o s p)))
Soon-in_cycle cfg o s st in_cycle p = absurd cc

disarmed-Pending :
    (now : ℕ) (s : Service)
    → is_in_cycle s.state ≡ true
    → OnlyCancels s.companion_commands
    → Pending s.state (on_flight_event now vehicle_disarmed s)
unfolding on_flight_event set_state request_cancel is_in_cycle is_wait_disarm
disarmed-Pending now s in_cycle quiet =
    let s' = on_flight_event now vehicle_disarmed s in
    let commands : s'.companion_commands ≡ s.companion_commands = ground arith in
    record {
      state = ground arith;
      requested = ground arith;
      quiet = subst OnlyCancels (sym commands) quiet;
    }

-- A disarm during an archive cycle or a manual download is not lost, if the queue holds no command but cancels and
-- no other thread acts from then on: whatever the outside answers, at most four passes of the main loop later
-- the service waits for the delay of a fresh cycle.
pub process_steps_disarm :
    (cfg : Config) (o : ℕ → Outside) (now : ℕ) (s : Service)
    → is_in_cycle s.state ≡ true
    → OnlyCancels s.companion_commands
    → Soon 4 cfg o (on_flight_event now vehicle_disarmed s)
process_steps_disarm cfg o now s in_cycle quiet =
    Soon-in_cycle cfg o (on_flight_event now vehicle_disarmed s) s.state in_cycle
      (disarmed-Pending now s in_cycle quiet)
