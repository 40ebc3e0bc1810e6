-- ===== src/DroneLogService/Jobs.antt =====
-- src/DroneLogService.cpp: what the companion gets for its requests, and what becomes of the commands.
use mavlink_companion_log_se.Base.{
  ℕ, ◌≡◌, refl, List, [], ◌∷◌, ◌++◌, Bool, true, false, not, if◌then◌else◌, arith, Bool-cases, inl,
  inr, ◌⊎◌,
}
use mavlink_companion_log_se.DroneLogService.Model.{
  Command, start_archive, refresh_logs, download_logs, erase_all_logs, Service, is_archive_busy,
  request_cancel,
}
use mavlink_companion_log_se.DroneLogService.Companion.{
  JobKind, JobStart, JobOutcome, accepted, already_running, armed, not_connected, not_found,
  request_companion_job, request_download, request_erase, queue_job, push_command, is_erase,
  split_ids, no_ids,
}

-- The command that a request stands for, of a download the ids that the cached list has.
abbrev pub command_for : JobKind → List ℕ → Bool → Service → Command
command_for JobKind.archive ids all s = start_archive
command_for JobKind.refresh ids all s = refresh_logs
command_for JobKind.download ids all s =
    download_logs (if all then [] else (split_ids s.cached_fc_logs ids).0) all
command_for JobKind.erase_all ids all s = erase_all_logs

abbrev pub RefusedAs : JobStart → JobKind → List ℕ → Bool → Service → Type 0
RefusedAs accepted kind ids all s = ⊥
RefusedAs already_running kind ids all s =
    (is_erase kind ≡ false) × (is_archive_busy s.state ≡ true)
RefusedAs armed kind ids all s =
    (is_erase kind ≡ false) × (is_archive_busy s.state ≡ false) × (s.monitor.armed ≡ true)
RefusedAs not_connected kind ids all s = s.connected ≡ false
RefusedAs not_found kind ids all s =
    (kind ≡ JobKind.download) × (all ≡ false) × ((split_ids s.cached_fc_logs ids).0 ≡ [])

abbrev pub Answered : JobKind → List ℕ → Bool → Service → Service × JobOutcome → Type 0
Answered kind ids all s r =
    ((r.1.result ≡ accepted)
      × (r.0.companion_commands ≡ s.companion_commands ++ command_for kind ids all s ∷ [])
      × (r.0.state ≡ s.state)
      × (s.connected ≡ true)
      × ((is_erase kind ≡ true) ⊎ ((is_archive_busy s.state ≡ false) × (s.monitor.armed ≡ false))))
    ⊎ (RefusedAs r.1.result kind ids all s × (r.0 ≡ s))

no_ids-nil : (ids : List ℕ) → no_ids ids ≡ true → ids ≡ []
unfolding no_ids
no_ids-nil [] e = refl
no_ids-nil (id ∷ ids) e = absurd cc

request_download-Answered :
    (ids : List ℕ) (all : Bool) (s : Service)
    → is_archive_busy s.state ≡ false
    → s.monitor.armed ≡ false
    → s.connected ≡ true
    → Answered JobKind.download ids all s (request_download ids all s)
unfolding request_download push_command is_erase
request_download-Answered ids true s idle disarmed up =
    inl (refl, refl, refl, up, inr (idle, disarmed))
request_download-Answered ids false s idle disarmed up =
    elim (Bool-cases (no_ids (split_ids s.cached_fc_logs ids).0)) [
      | inl e ↦ rw e (inr ((refl, refl, no_ids-nil _ e), refl))
      | inr e ↦ rw e (inl (refl, refl, refl, up, inr (idle, disarmed)))
    ]

if-by :
    (P : Service × JobOutcome → Type 0) (b : Bool) (x y : Service × JobOutcome)
    → (b ≡ true → P x)
    → (b ≡ false → P y)
    → P (if b then x else y)
if-by P true x y t f = t refl
if-by P false x y t f = f refl

-- A request either is accepted, and then exactly its command is queued, last, in a state that allows it
-- (connected; except for an erase, neither busy nor armed); or it is refused for a reason that holds, and
-- changes nothing.
pub request_companion_job_lem :
    (kind : JobKind) (ids : List ℕ) (all : Bool) (s : Service)
    → Answered kind ids all s (request_companion_job kind ids all s)
unfolding request_companion_job queue_job request_erase push_command is_erase request_cancel
request_companion_job_lem JobKind.archive ids all s = ground arith
request_companion_job_lem JobKind.refresh ids all s = ground arith
request_companion_job_lem JobKind.download ids all s =
    let P = Answered JobKind.download ids all s in
    if-by P (is_archive_busy s.state) _ _ (λ busy. inr ((refl, busy), refl))
      (λ idle.
        if-by P s.monitor.armed _ _ (λ arms. inr ((refl, idle, arms), refl))
          (λ disarmed.
            if-by P (not s.connected) _ _ (λ down. inr (ground arith, refl))
              (λ up. request_download-Answered ids all s idle disarmed (ground arith))))
request_companion_job_lem JobKind.erase_all ids all s = ground arith
