-- ===== src/DroneLogService/Safety.antt =====
-- src/DroneLogService.cpp: when the flight controller may be erased, in each service that can be.
use mavlink_companion_log_se.Base.{
  ◌≡◌, subst, ◌≢◌, refl, sym, ap, ◌∙◌, List, [], Bool, true, false, if◌then◌else◌, arith, inl, inr,
  ◌⊎◌,
}
use mavlink_companion_log_se.Types.{LogEntry, CycleResult}
use mavlink_companion_log_se.Database.{Database}
use mavlink_companion_log_se.LogDownloader.Enumerate.{not_empty}
use mavlink_companion_log_se.DroneLogService.Model.{
  State, Config, Service, set_state, reset_cancel, handle_connection_lost, ignores_loss,
  return_to_idle_state,
}
use mavlink_companion_log_se.DroneLogService.Process.{
  Outside, process_in, process_state, run_archive, run_erase_all, run_manual_download, run_cleanup,
  may_erase, enumerated, enumerate_and_cache, archive_entries, reconnect,
  erase_flight_controller_logs, cache_enumeration_result,
}
use mavlink_companion_log_se.DroneLogService.World.{Action, process, perform}
use mavlink_companion_log_se.DroneLogService.World.{Reachable, starts, acts}
use mavlink_companion_log_se.DroneLogService.Calm.{is_process, perform-Calm}
use mavlink_companion_log_se.DroneLogService.CalmSteps.{Calm, is_erase_all}

-- A service about to erase after a cycle: the cycle archived all of a list that is not empty, without
-- a cancellation, and the configuration asks for the erasure.
abbrev pub ErasesRightly : Config → Service → Type 0
ErasesRightly cfg s =
    is_erase_all s.state ≡ true
    → (cfg.erase_after_success ≡ true)
      × (s.last_cycle_result.all_archived ≡ true)
      × (s.last_cycle_result.cancelled ≡ 0)
      × (not_empty s.cached_fc_logs ≡ true)

ErasesRightly-Calm :
    (cfg : Config) {s s' : Service} → Calm s s' → ErasesRightly cfg s → ErasesRightly cfg s'
ErasesRightly-Calm cfg calm right h =
    let r = right (calm.state h) in
    (
      r.0,
      ap (λ c. c.all_archived) calm.result ∙ r.1,
      ap (λ c. c.cancelled) calm.result ∙ r.2,
      ap not_empty calm.logs ∙ r.3,
    )

abbrev Elsewhere : Service → Type 0
Elsewhere s = is_erase_all s.state ≡ false

Elsewhere-if :
    (b : Bool) (x y : Service) → Elsewhere x → Elsewhere y → Elsewhere (if b then x else y)
Elsewhere-if true x y p q = p
Elsewhere-if false x y p q = q

pub ErasesRightly-Elsewhere : (cfg : Config) (s : Service) → Elsewhere s → ErasesRightly cfg s
ErasesRightly-Elsewhere cfg s e h = absurd (cc (sym e ∙ h))

handle_connection_lost-Elsewhere :
    (s : Service) → Elsewhere s → Elsewhere (handle_connection_lost s)
unfolding handle_connection_lost is_erase_all
handle_connection_lost-Elsewhere s e = Elsewhere-if (ignores_loss s.state) _ _ e refl

idle-Elsewhere : (s : Service) → Elsewhere (return_to_idle_state s)
unfolding return_to_idle_state is_erase_all set_state
idle-Elsewhere s = ground arith

may_erase_lem :
    (cfg : Config) (r : CycleResult) (logs : List LogEntry)
    → may_erase cfg r logs ≡ true
    → (cfg.erase_after_success ≡ true)
      × (r.all_archived ≡ true)
      × (r.cancelled ≡ 0)
      × (not_empty logs ≡ true)
unfolding may_erase
may_erase_lem cfg r logs h = (ground arith, ground arith, ground arith, ground arith)

erase_or_cleanup :
    (b : Bool) → is_erase_all (if b then State.erase_all else State.cleanup) ≡ true → b ≡ true
unfolding is_erase_all
erase_or_cleanup true h = refl
erase_or_cleanup false h = absurd cc

-- What the end of an archive cycle has decided.
pub run_archive-ErasesRightly :
    (cfg : Config) (o : Outside) (s : Service) → ErasesRightly cfg (run_archive cfg o s)
unfolding run_archive set_state archive_entries enumerate_and_cache cache_enumeration_result
run_archive-ErasesRightly cfg o s h = may_erase_lem cfg _ (enumerated o s) (erase_or_cleanup _ h)

-- Every step but the archiving one ends outside the erasing state.
process_in-Elsewhere :
    (cfg : Config) (o : Outside) (s : Service) (st : State)
    → s.state ≡ st
    → st ≢ State.archive
    → Elsewhere (process_in st cfg o s)
unfolding process_in run_erase_all run_manual_download run_cleanup set_state is_erase_all reconnect
process_in-Elsewhere cfg o s State.boot e n = refl
process_in-Elsewhere cfg o s State.connect e n = let k = ap is_erase_all e in ground arith
process_in-Elsewhere cfg o s State.wait_heartbeat e n =
    let k = ap is_erase_all e in ground (arith, handle_connection_lost-Elsewhere s k)
process_in-Elsewhere cfg o s State.wait_arm e n =
    let k = ap is_erase_all e in ground (arith, handle_connection_lost-Elsewhere s k)
process_in-Elsewhere cfg o s State.wait_disarm e n =
    let k = ap is_erase_all e in ground (arith, handle_connection_lost-Elsewhere s k)
process_in-Elsewhere cfg o s State.delay e n = let k = ap is_erase_all e in ground arith
process_in-Elsewhere cfg o s State.enumerate e n = refl
process_in-Elsewhere cfg o s State.archive e n = absurd (n refl)
process_in-Elsewhere cfg o s State.erase_all e n = ground arith
process_in-Elsewhere cfg o s State.manual_refresh e n = idle-Elsewhere (enumerate_and_cache o s)
process_in-Elsewhere cfg o s State.manual_download e n = refl
process_in-Elsewhere cfg o s State.manual_erase e n =
    idle-Elsewhere (cache_enumeration_result [] (erase_flight_controller_logs o (reset_cancel s)))
process_in-Elsewhere cfg o s State.cleanup e n = ground arith
process_in-Elsewhere cfg o s State.connection_lost e n = refl

pub archive-cases : (st : State) → (st ≡ State.archive) ⊎ (st ≢ State.archive)
archive-cases State.archive = inl refl
archive-cases st = inr (λ e. cc)

process_state-ErasesRightly :
    (cfg : Config) (o : Outside) (s : Service) → ErasesRightly cfg (process_state cfg o s)
unfolding process_state process_in
process_state-ErasesRightly cfg o s = elim (archive-cases s.state) [
  | inl e ↦
      subst (λ st. ErasesRightly cfg (process_in st cfg o s)) (sym e)
        (run_archive-ErasesRightly cfg o s)
  | inr other ↦
      ErasesRightly-Elsewhere cfg (process_in s.state cfg o s)
        (process_in-Elsewhere cfg o s s.state refl other)
]

perform-ErasesRightly :
    (cfg : Config) (a : Action) (s : Service)
    → ErasesRightly cfg s
    → ErasesRightly cfg (perform cfg a s)
unfolding perform is_process
perform-ErasesRightly cfg (process o) s right = process_state-ErasesRightly cfg o s
perform-ErasesRightly cfg a s right = ErasesRightly-Calm cfg (perform-Calm cfg a s refl) right

pub Reachable-ErasesRightly :
    {cfg : Config} {db : Database} {asked : Bool} {s : Service}
    → Reachable cfg db asked s
    → ErasesRightly cfg s
unfolding is_erase_all
Reachable-ErasesRightly starts = λ h. absurd cc
Reachable-ErasesRightly (acts a r) = perform-ErasesRightly _ a _ (Reachable-ErasesRightly r)
