-- ===== src/DroneLogService/CalmSteps.antt =====
-- src/DroneLogService.cpp: what every action but a step of the main loop leaves alone, and small steps that do.
use mavlink_companion_log_se.Base.{ℕ, ◌≡◌, refl, ◌∙◌, Bool, true, false, if◌then◌else◌, arith}
use mavlink_companion_log_se.DroneLogService.Model.{
  State, Service, set_state, request_cancel, reset_cancel,
}

unfoldable pub is_erase_all : State → Bool
is_erase_all State.erase_all = true
is_erase_all _ = false

-- What an action other than a step of the main loop does: it neither erases nor goes to the erasure, and
-- keeps the last cycle's result, the cached list and the catalog.
pub record Calm (s s' : Service) : Type 0 where
  pub result : s'.last_cycle_result ≡ s.last_cycle_result
  pub logs : s'.cached_fc_logs ≡ s.cached_fc_logs
  pub database : s'.downloader.database ≡ s.downloader.database
  pub erasures : s'.erasures ≡ s.erasures
  pub state : is_erase_all s'.state ≡ true → is_erase_all s.state ≡ true

pub Calm-refl : (s : Service) → Calm s s
Calm-refl s = record {
  result = refl;
  logs = refl;
  database = refl;
  erasures = refl;
  state = λ h. h;
}

pub Calm-trans : {a b c : Service} → Calm a b → Calm b c → Calm a c
Calm-trans p q = record {
  result = q.result ∙ p.result;
  logs = q.logs ∙ p.logs;
  database = q.database ∙ p.database;
  erasures = q.erasures ∙ p.erasures;
  state = λ h. p.state (q.state h);
}

pub Calm-if :
    {s : Service} (b : Bool) {x y : Service} → Calm s x → Calm s y → Calm s (if b then x else y)
Calm-if true p q = p
Calm-if false p q = q

pub Calm-set_state :
    {s : Service} (st : State) (s' : Service)
    → is_erase_all st ≡ false
    → Calm s s'
    → Calm s (set_state st s')
unfolding set_state
Calm-set_state st s' e p = record {
  result = p.result;
  logs = p.logs;
  database = p.database;
  erasures = p.erasures;
  state = λ h. absurd (ground arith);
}

pub Calm-request_cancel : {s s' : Service} → Calm s s' → Calm s (request_cancel s')
unfolding request_cancel
Calm-request_cancel p = record {
  result = p.result;
  logs = p.logs;
  database = p.database;
  erasures = p.erasures;
  state = p.state;
}

pub Calm-reset_cancel : {s s' : Service} → Calm s s' → Calm s (reset_cancel s')
unfolding reset_cancel
Calm-reset_cancel p = record {
  result = p.result;
  logs = p.logs;
  database = p.database;
  erasures = p.erasures;
  state = p.state;
}

abbrev pub noted : ℕ → Service → Service
noted now s = record s { disarm_time = now; archive_requested = true }

pub Calm-noted : (now : ℕ) (s : Service) → Calm s (noted now s)
Calm-noted now s = record {
  result = refl;
  logs = refl;
  database = refl;
  erasures = refl;
  state = λ h. h;
}
