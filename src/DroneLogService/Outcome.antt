-- ===== src/DroneLogService/Outcome.antt =====
-- src/DroneLogService.cpp: `evaluateArchiveOutcome`, the policy that reconnects after failures.
use mavlink_companion_log_se.Base.{
  ℕ, ◌+◌, ◌<◌, ◌≤◌, ◌≡◌, refl, Bool, true, false, if◌then◌else◌, arith, ◌⊎◌,
}
use mavlink_companion_log_se.Types.{is_transport_failure}
use mavlink_companion_log_se.DroneLogService.Model.{
  Config, Service, evaluate_archive_outcome, wants_reconnect,
}

-- What the policy leaves alone.
pub record Kept (s s' : Service) : Type 0 where
  pub commands : s'.companion_commands ≡ s.companion_commands
  pub erasures : s'.erasures ≡ s.erasures
  pub requested : s'.archive_requested ≡ s.archive_requested
  pub monitor : s'.monitor ≡ s.monitor

Kept-if :
    {s : Service} (b : Bool) (x y : Service) → Kept s x → Kept s y → Kept s (if b then x else y)
Kept-if true x y p q = p
Kept-if false x y p q = q

pub evaluate_archive_outcome-Kept :
    (cfg : Config) (connects : Bool) (s : Service)
    → Kept s (evaluate_archive_outcome cfg connects s)
unfolding evaluate_archive_outcome
evaluate_archive_outcome-Kept cfg connects s =
    Kept-if _ _ _ (same s.connected s.consecutive_archive_failures) (
      Kept-if _ _ _ (same s.connected 0) (
        Kept-if _ _ _ (same s.connected (s.consecutive_archive_failures + 1))
          (Kept-if connects _ _ (same true 0) (same false (s.consecutive_archive_failures + 1)))))
  where
    same :
        (up : Bool) (n : ℕ) → Kept s (record s { connected = up; consecutive_archive_failures = n })
    same up n = record { commands = refl; erasures = refl; requested = refl; monitor = refl }

-- As long as reconnects succeed, the count of consecutive failures stays below the configured number
-- that makes the service reconnect.
pub evaluate_archive_outcome_bound :
    (cfg : Config) (s : Service)
    → s.consecutive_archive_failures < cfg.reconnect_after_consecutive_failures
    → (evaluate_archive_outcome cfg true s).consecutive_archive_failures
      < cfg.reconnect_after_consecutive_failures
unfolding evaluate_archive_outcome wants_reconnect
evaluate_archive_outcome_bound cfg s lt = ground arith

-- A cycle with a failure reconnects the transport exactly if its last reason is a transport's and the
-- configuration reconnects on those, or if this failure brings the count to the configured number,
-- which is not 0; else the transport stays as it is and the count goes up by one.
pub evaluate_archive_outcome_failed :
    (cfg : Config) (connects : Bool) (s : Service)
    → 0 < s.last_cycle_result.failed
    → let s' = evaluate_archive_outcome cfg connects s in
      let failures = s.consecutive_archive_failures + 1 in
      let by_reason =
        (cfg.reconnect_on_transport_failure ≡ true)
        × (is_transport_failure s.last_cycle_result.last_failure_reason ≡ true) in
      let by_count =
        (0 < cfg.reconnect_after_consecutive_failures)
        × (cfg.reconnect_after_consecutive_failures ≤ failures) in
      ((by_reason ⊎ by_count)
        × (s'.connected ≡ connects)
        × (s'.consecutive_archive_failures ≡ (if connects then 0 else failures)))
      ⊎ ((¬ (by_reason ⊎ by_count))
          × (s'.connected ≡ s.connected)
          × (s'.consecutive_archive_failures ≡ failures))
unfolding evaluate_archive_outcome wants_reconnect
evaluate_archive_outcome_failed cfg connects s f = ground arith
