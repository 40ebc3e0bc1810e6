-- ===== src/DroneLogService/Erase.antt =====
-- src/DroneLogService.cpp: which steps erase the flight controller, and why.
use mavlink_companion_log_se.Base.{
  ◌≡◌, ◌≢◌, refl, sym, ap, ◌∙◌, Bool, true, false, arith, Bool-cases, inl, inr, ◌⊎◌,
}
use mavlink_companion_log_se.Database.{Database}
use mavlink_companion_log_se.DroneLogService.Model.{
  State, Config, Service, set_state, reset_cancel, handle_connection_lost, return_to_idle_state,
}
use mavlink_companion_log_se.DroneLogService.Process.{
  Outside, process_in, process_state, run_archive, run_erase_all, run_manual_download, run_cleanup,
  enumerate_and_cache, archive_entries, reconnect, cache_enumeration_result,
}
use mavlink_companion_log_se.DroneLogService.World.{Action, process, perform}
use mavlink_companion_log_se.DroneLogService.World.{Reachable, starts, acts}
use mavlink_companion_log_se.DroneLogService.Calm.{is_process, perform-Calm}
use mavlink_companion_log_se.DroneLogService.CalmSteps.{is_erase_all}
use mavlink_companion_log_se.DroneLogService.Outcome.{evaluate_archive_outcome-Kept}
use mavlink_companion_log_se.DroneLogService.Safety.{Reachable-ErasesRightly}
use mavlink_companion_log_se.DroneLogService.Unasked.{is_manual_erase, Reachable-Unasked}

-- The two states in which a step sends LOG_ERASE.
process_in-erasures :
    (cfg : Config) (o : Outside) (s : Service) (st : State)
    → ((process_in st cfg o s).erasures ≡ s.erasures)
      ⊎ ((st ≡ State.erase_all) × (s.downloader.cancel_requested ≡ false))
      ⊎ (st ≡ State.manual_erase)
unfolding process_in run_archive run_erase_all run_manual_download run_cleanup set_state reconnect
    archive_entries enumerate_and_cache cache_enumeration_result return_to_idle_state
    handle_connection_lost reset_cancel
process_in-erasures cfg o s State.erase_all = elim (Bool-cases s.downloader.cancel_requested) [
  | inl cancelled ↦ inl (ground arith)
  | inr going ↦ inr (inl (refl, going))
]
process_in-erasures cfg o s State.manual_erase = inr (inr refl)
process_in-erasures cfg o s State.cleanup =
    inl (evaluate_archive_outcome-Kept cfg o.connects _).erasures
process_in-erasures cfg o s st = inl (ground arith)

abbrev pub ErasesAfterCycle : Config → Service → Type 0
ErasesAfterCycle cfg s =
    (s.state ≡ State.erase_all)
    × (s.downloader.cancel_requested ≡ false)
    × (cfg.erase_after_success ≡ true)
    × (s.last_cycle_result.all_archived ≡ true)
    × (s.last_cycle_result.cancelled ≡ 0)

perform-erasures :
    {cfg : Config} {db : Database} {asked : Bool} {s : Service} (r : Reachable cfg db asked s)
    (a : Action)
    → ((perform cfg a s).erasures ≡ s.erasures)
      ⊎ ErasesAfterCycle cfg s
      ⊎ ((s.state ≡ State.manual_erase) × (asked ≡ true))
unfolding perform process_state is_process is_erase_all is_manual_erase
perform-erasures {cfg} {db} {asked} {s} r (process o) = elim (process_in-erasures cfg o s s.state) [
  | inl same ↦ inl same
  | inr (inl (e, going)) ↦
      let right = Reachable-ErasesRightly r (ap is_erase_all e) in
      inr (inl (e, going, right.0, right.1, right.2))
  | inr (inr e) ↦ elim (Bool-cases asked) [
    | inl did ↦ inr (inr (e, did))
    | inr no_one ↦ absurd (cc (sym ((Reachable-Unasked r no_one).state) ∙ ap is_manual_erase e))
  ]
]
perform-erasures {cfg} {db} {asked} {s} r a = inl (perform-Calm cfg a s refl).erasures

-- Whatever the threads have done, an action that sends LOG_ERASE is a step of one of two kinds: the one
-- after an archive cycle in which every log was archived and none cancelled, without a pending cancel
-- and with the erasure configured; or the manual erase, after a request for it by the companion.
pub perform_erases_rightly :
    {cfg : Config} {db : Database} {asked : Bool} {s : Service} (r : Reachable cfg db asked s)
    (a : Action)
    → (perform cfg a s).erasures ≢ s.erasures
    → ErasesAfterCycle cfg s ⊎ ((s.state ≡ State.manual_erase) × (asked ≡ true))
perform_erases_rightly r a sent = elim (perform-erasures r a) [
  | inl same ↦ absurd (sent same)
  | inr why ↦ why
]

-- A service that is configured not to erase, and is never asked to, never sends LOG_ERASE.
pub never_erases :
    {cfg : Config} {db : Database} {asked : Bool} {s : Service}
    → Reachable cfg db asked s
    → asked ≡ false
    → cfg.erase_after_success ≡ false
    → s.erasures ≡ 0
never_erases starts quiet off = refl
never_erases (acts a r) quiet off = elim (perform-erasures r a) [
  | inl same ↦ same ∙ never_erases r (ground arith) off
  | inr (inl after_cycle) ↦ absurd (cc (sym off ∙ after_cycle.2))
  | inr (inr (e, did)) ↦ absurd (ground arith)
]
