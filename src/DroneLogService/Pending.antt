-- ===== src/DroneLogService/Pending.antt =====
-- src/DroneLogService.cpp: a requested cycle while the queue of commands holds nothing but cancels.
use mavlink_companion_log_se.Base.{◌≡◌, refl, ◌∙◌, List, [], ◌∷◌, true}
use mavlink_companion_log_se.DroneLogService.Model.{
  State, Command, start_archive, cancel_archive, refresh_logs, download_logs, erase_all_logs,
  Service, request_cancel,
}
use mavlink_companion_log_se.DroneLogService.Companion.{
  run_command, run_commands, drain_companion_commands,
}

-- No command but `archive.cancel`.
abbrev pub OnlyCancels : List Command → Type 0
OnlyCancels [] = Unit {0}
OnlyCancels (cancel_archive ∷ cs) = OnlyCancels cs
OnlyCancels (start_archive ∷ cs) = ⊥
OnlyCancels (refresh_logs ∷ cs) = ⊥
OnlyCancels (download_logs ids all ∷ cs) = ⊥
OnlyCancels (erase_all_logs ∷ cs) = ⊥

pub record Pending (st : State) (s : Service) : Type 0 where
  pub state : s.state ≡ st
  pub requested : s.archive_requested ≡ true
  pub quiet : OnlyCancels s.companion_commands

-- Such commands leave alone the state, the request, the monitor and the queue.
record Same (s s' : Service) : Type 0 where
  state : s'.state ≡ s.state
  requested : s'.archive_requested ≡ s.archive_requested
  monitor : s'.monitor ≡ s.monitor
  commands : s'.companion_commands ≡ s.companion_commands

run_commands-Same : (cs : List Command) (s : Service) → OnlyCancels cs → Same s (run_commands cs s)
unfolding run_commands run_command request_cancel
run_commands-Same [] s q = record {
  state = refl;
  requested = refl;
  monitor = refl;
  commands = refl;
}
run_commands-Same (cancel_archive ∷ cs) s q =
    let rest = run_commands-Same cs (request_cancel s) q in
    record {
      state = rest.state;
      requested = rest.requested;
      monitor = rest.monitor;
      commands = rest.commands;
    }
run_commands-Same (start_archive ∷ cs) s q = elim q [ ]
run_commands-Same (refresh_logs ∷ cs) s q = elim q [ ]
run_commands-Same (download_logs ids all ∷ cs) s q = elim q [ ]
run_commands-Same (erase_all_logs ∷ cs) s q = elim q [ ]

OnlyCancels-nil : (cs : List Command) → cs ≡ [] → OnlyCancels cs
OnlyCancels-nil [] e = tt
OnlyCancels-nil (c ∷ cs) e = absurd cc

pub drain-Pending :
    (st : State) (s : Service) → Pending st s → Pending st (drain_companion_commands s)
unfolding drain_companion_commands
drain-Pending st s p =
    let same =
      run_commands-Same s.companion_commands (record s { companion_commands = [] }) p.quiet in
    record {
      state = same.state ∙ p.state;
      requested = same.requested ∙ p.requested;
      quiet = OnlyCancels-nil _ same.commands;
    }

pub drain-monitor :
    (s : Service)
    → OnlyCancels s.companion_commands
    → (drain_companion_commands s).monitor ≡ s.monitor
unfolding drain_companion_commands
drain-monitor s q =
    (run_commands-Same s.companion_commands (record s { companion_commands = [] }) q).monitor
