-- ===== src/StreamDownload/Session/Judged.antt =====
-- What a pass of the waiting loop may leave, and what its steps leave alone.
use mavlink_companion_log_se.Base.{
  ℕ, ◌-◌, ◌*◌, ◌<◌, ◌≡◌, refl, true, false, ltb, arith, Bool-cases, inl, inr, ◌⊎◌,
}
use mavlink_companion_log_se.ReceivedRanges.{bytes_received, complete}
use mavlink_companion_log_se.Coverage.{all_slots_received}
use mavlink_companion_log_se.StreamDownload.{Params}
use mavlink_companion_log_se.StreamDownload.Filled.{Holds}
use mavlink_companion_log_se.StreamDownload.Session.{is_none}
use mavlink_companion_log_se.StreamDownload.Session.Waiting.{
  Timing, Pass, Session, Verdict, waits, session_done, timed_out, conflict, cancelled,
  note_progress, fill_gaps,
}
use mavlink_companion_log_se.StreamDownload.Session.Inbound.{Queued}

-- What a session keeps: the file holds what was received, and the queue chunks of the log.
pub record Sane (log : ℕ → ℕ) (p : Params) (id : ℕ) (s : Session) : Type 0 where
  pub stream : Holds log p s.stream
  pub queue : Queued log id s.inbox.data_chunks

abbrev pub IsComplete : Params → Session → Type 0
IsComplete p s =
    (complete s.stream.ranges p.byte_count ≡ true) × (all_slots_received s.stream.coverage ≡ true)

-- What a verdict says of the session.
abbrev pub Judged : (ℕ → ℕ) → Params → ℕ → Session × Verdict → Type 0
Judged log p id (s, waits) = Sane log p id s
Judged log p id (s, session_done) = Sane log p id s × IsComplete p s
Judged log p id (s, timed_out) = Sane log p id s
Judged log p id (s, conflict) = is_none s.failure ≡ false
Judged log p id (s, cancelled) = Sane log p id s

-- The time of a pass that goes on: the last data are no further back than the timeout, and were either the
-- last before it too or have come in it.
abbrev pub Moved : Timing → Pass → Session → Session × Verdict → Type 0
Moved cfg q s (s', waits) =
    (q.now - s'.last_data_time < cfg.download_timeout_sec * 1000)
    × (((s'.last_progress_bytes ≡ s.last_progress_bytes) × (s'.last_data_time ≡ s.last_data_time))
        ⊎ ((s.last_progress_bytes < s'.last_progress_bytes)
            × (s'.last_progress_bytes ≡ bytes_received s'.stream.ranges)
            × (s'.last_data_time ≡ q.progress_at)))
Moved cfg q s (s', v) = Unit {0}

abbrev pub Passed : (ℕ → ℕ) → Timing → Params → ℕ → Pass → Session → Session × Verdict → Type 0
Passed log cfg p id q s r =
    Judged log p id r × (r.0.fc_busy_waits ≡ s.fc_busy_waits) × Moved cfg q s r

abbrev pub Arrived : (ℕ → ℕ) → Params → ℕ → Session → Session → Type 0
Arrived log p id s s' =
    Sane log p id s'
    × (s'.fc_busy_waits ≡ s.fc_busy_waits)
    × (s'.last_progress_bytes ≡ s.last_progress_bytes)
    × (s'.last_data_time ≡ s.last_data_time)
    × (s'.stream ≡ s.stream)

pub note_progress_lem :
    (q : Pass) (s : Session)
    → let s' = note_progress q s in
      (s'.stream ≡ s.stream)
      × (s'.fc_busy_waits ≡ s.fc_busy_waits)
      × (((s'.last_progress_bytes ≡ s.last_progress_bytes) × (s'.last_data_time ≡ s.last_data_time))
          ⊎ ((s.last_progress_bytes < s'.last_progress_bytes)
              × (s'.last_progress_bytes ≡ bytes_received s'.stream.ranges)
              × (s'.last_data_time ≡ q.progress_at)))
unfolding note_progress
note_progress_lem q s =
    elim (Bool-cases (ltb s.last_progress_bytes (bytes_received s.stream.ranges))) [
      | inl more ↦ rw more (refl, refl, inr (ground arith, refl, refl))
      | inr same ↦ rw same (refl, refl, inl (refl, refl))
    ]

pub fill_gaps_lem :
    (cfg : Timing) (total : ℕ) (q : Pass) (s : Session)
    → let s' = fill_gaps cfg total q s in
      (s'.stream ≡ s.stream)
      × (s'.fc_busy_waits ≡ s.fc_busy_waits)
      × (s'.last_progress_bytes ≡ s.last_progress_bytes)
      × (s'.last_data_time ≡ s.last_data_time)
unfolding fill_gaps
fill_gaps_lem cfg total q s = (ground arith, ground arith, ground arith, ground arith)
