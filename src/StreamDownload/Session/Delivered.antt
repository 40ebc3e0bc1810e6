-- ===== src/StreamDownload/Session/Delivered.antt =====
-- What a run of a download session delivers, whatever its schedule: the waiting loop, an attempt, the loop.
use mavlink_companion_log_se.Base.{
  ℕ, suc, ◌+◌, ◌-◌, ◌*◌, length, ◌≤◌, ◌<◌, ◌≡◌, refl, ap, subst, List, [], ◌∷◌, Bool, true, false,
  ◌&&◌, ◌==◌, ltb, leb, if◌then◌else◌, arith, Bool-cases, inl, inr, ◌⊎◌,
}
use mavlink_companion_log_se.Base.Run.{finished, Upto, Upto-bind, Upto-Returns}
use mavlink_companion_log_se.Types.{FailureReason}
use mavlink_companion_log_se.ReceivedRanges.{bytes_received}
use mavlink_companion_log_se.LogDownloader.Inbox.{clear_data_chunks}
use mavlink_companion_log_se.StreamDownload.{Params, end_offset}
use mavlink_companion_log_se.StreamDownload.Filled.{received-le}
use mavlink_companion_log_se.StreamDownload.Session.{
  is_none, Ending, returned, completed, exhausted, Onward, ends, attempt_next, end_transfer, retry,
  after_attempt, after_loop,
}
use mavlink_companion_log_se.StreamDownload.Session.Waiting.{
  Timing, Pass, Attempt, Session, Verdict, waits, session_done, timed_out, conflict, cancelled,
  one_pass, wait_loop,
}
use mavlink_companion_log_se.StreamDownload.Session.Inbound.{AllCarry}
use mavlink_companion_log_se.StreamDownload.Session.Passes.{one_pass-Passed}
use mavlink_companion_log_se.StreamDownload.Session.Judged.{Sane, IsComplete, Judged, Passed}

abbrev pub AllPassesCarry : (ℕ → ℕ) → ℕ → List Pass → Type 0
AllPassesCarry log id [] = Unit {0}
AllPassesCarry log id (q ∷ qs) = AllCarry log id q.messages × AllPassesCarry log id qs

abbrev pub AttemptCarries : (ℕ → ℕ) → ℕ → Attempt → Type 0
AttemptCarries log id a = AllCarry log id a.messages × AllPassesCarry log id a.passes

abbrev pub AllAttemptsCarry : (ℕ → ℕ) → ℕ → List Attempt → Type 0
AllAttemptsCarry log id [] = Unit {0}
AllAttemptsCarry log id (a ∷ as') = AttemptCarries log id a × AllAttemptsCarry log id as'

-- The loop is not left by `waits`.
abbrev pub Left : (ℕ → ℕ) → Params → ℕ → ℕ → Session × Verdict → Type 0
Left log p id busy (s, waits) = ⊥
Left log p id busy (s, v) = Judged log p id (s, v) × (s.fc_busy_waits ≡ busy)

-- What the end of the loop over the attempts says of the session.
abbrev pub Ended : (ℕ → ℕ) → Params → ℕ → Session × Ending → Type 0
Ended log p id (s, returned) = is_none s.failure ≡ false
Ended log p id (s, completed) = Sane log p id s × IsComplete p s
Ended log p id (s, exhausted) = Unit {0}

-- After an attempt: the end, or the next attempt, which is the one after or another wait for a busy flight
-- controller.
abbrev pub Continued : (ℕ → ℕ) → Timing → Params → ℕ → ℕ → ℕ → Session × Onward → Type 0
Continued log cfg p id attempt busy (s, ends e) = Ended log p id (s, e)
Continued log cfg p id attempt busy (s, attempt_next n) =
    Sane log p id s
    × (((n ≡ attempt + 1) × (s.fc_busy_waits ≡ busy))
        ⊎ ((n ≡ attempt)
            × (s.fc_busy_waits ≡ busy + 1)
            × (busy < cfg.fc_busy_retry_attempts)
            × (bytes_received s.stream.ranges ≡ 0)))

-- The clock does not go back, and moves on by a millisecond at least from pass to pass.
abbrev pub Timely : ℕ → List Pass → Type 0
Timely clock [] = Unit {0}
Timely clock (q ∷ qs) =
    (clock < q.now) × (clock ≤ q.progress_at) × (q.progress_at ≤ q.now) × Timely q.now qs

-- How many passes there can be: each byte that is still missing can put off the timeout once.
unfoldable pub passes_left : Timing → Params → ℕ → Session → ℕ
passes_left cfg p clock s =
    (end_offset p - s.last_progress_bytes) * (cfg.download_timeout_sec * 1000 + 1)
    + (s.last_data_time + cfg.download_timeout_sec * 1000 - clock)

mul_step : (a b t : ℕ) → a < b → a * t + t ≤ b * t
mul_step a b t h = grind arith

passes_left-falls :
    (log : ℕ → ℕ) (cfg : Timing) (p : Params) (id : ℕ) (q : Pass) (clock : ℕ) (s s' : Session)
    → clock < q.now
    → q.progress_at ≤ q.now
    → Passed log cfg p id q s (s', waits)
    → (n : ℕ) → passes_left cfg p clock s < suc n
    → passes_left cfg p q.now s' < n
unfolding passes_left
passes_left-falls log cfg p id q clock s s' on at passed n few =
    let (sane, busy, (early, moved)) = passed in
    elim moved [
      | inl still ↦
          let same = ap (λ x. (end_offset p - x) * (cfg.download_timeout_sec * 1000 + 1)) still.0 in
          omega (arith, same, still.1)
      | inr new ↦
          let bound : bytes_received s'.stream.ranges ≤ end_offset p =
            received-le log p s'.stream sane.stream in
          let less : (end_offset p - s'.last_progress_bytes) * (cfg.download_timeout_sec * 1000 + 1)
                + (cfg.download_timeout_sec * 1000 + 1)
              ≤ (end_offset p - s.last_progress_bytes) * (cfg.download_timeout_sec * 1000 + 1) =
            mul_step _ _ _ (omega (arith, new.0, new.1)) in
          omega (arith, new.2)
    ]

module _ (log : ℕ → ℕ) (cfg : Timing) (p : Params) (id : ℕ) where
  end_transfer-Sane : (s : Session) → Sane log p id s → Sane log p id (end_transfer s)
  unfolding end_transfer clear_data_chunks
  end_transfer-Sane s sane = record { stream = sane.stream; queue = tt }

  retry-Continued :
      (attempt : ℕ) (s : Session)
      → Sane log p id s
      → Continued log cfg p id attempt s.fc_busy_waits (retry cfg attempt s)
  unfolding retry end_transfer
  retry-Continued attempt s sane = elim (Bool-cases (ltb attempt cfg.retry_count)) [
    | inl more ↦ rw more (end_transfer-Sane s sane, inl (refl, refl))
    | inr last ↦ rw last (sane, inl (refl, refl))
  ]

  Continued-if :
      (attempt busy : ℕ) (b : Bool) (x y : Session × Onward)
      → (b ≡ true → Continued log cfg p id attempt busy x)
      → (b ≡ false → Continued log cfg p id attempt busy y)
      → Continued log cfg p id attempt busy (if b then x else y)
  Continued-if attempt busy true x y t f = t refl
  Continued-if attempt busy false x y t f = f refl

  abort_reason :
      (f : FailureReason) → is_none (if is_none f then FailureReason.no_progress else f) ≡ false
  unfolding is_none
  abort_reason FailureReason.none = refl
  abort_reason f = refl

  after_attempt-Continued :
      (attempt before : ℕ) (answered : Bool) (s : Session)
      → Sane log p id s
      → Continued log cfg p id attempt s.fc_busy_waits (after_attempt cfg attempt before answered s)
  unfolding after_attempt end_transfer clear_data_chunks
  after_attempt-Continued attempt before answered s sane =
      let received = bytes_received s.stream.ranges in
      let busy : Session = record (end_transfer s) {
        fc_busy_waits = s.fc_busy_waits + 1;
        failure = FailureReason.none;
      } in
      let stalled : Session = record s { no_progress_attempts = s.no_progress_attempts + 1 } in
      let aborted : Session = record (end_transfer stalled) {
        failure = if is_none s.failure then FailureReason.no_progress else s.failure;
      } in
      let sane' : Sane log p id stalled = record { stream = sane.stream; queue = sane.queue } in
      let late : Session × Onward =
        if leb received before
        then if leb cfg.stall_abort_attempts (s.no_progress_attempts + 1)
          then (aborted, ends returned)
          else retry cfg attempt stalled
        else retry cfg attempt s in
      Continued-if attempt s.fc_busy_waits
        (received == 0 && answered && ltb s.fc_busy_waits cfg.fc_busy_retry_attempts)
        (busy, attempt_next attempt) late
        (λ waited. (
          record { stream = sane.stream; queue = tt },
          inr (refl, refl, ground arith, ground arith),
        ))
        (λ over.
          Continued-if attempt s.fc_busy_waits (leb received before)
            (if leb cfg.stall_abort_attempts (s.no_progress_attempts + 1)
              then (aborted, ends returned)
              else retry cfg attempt stalled)
            (retry cfg attempt s)
            (λ none_new.
              Continued-if attempt s.fc_busy_waits
                (leb cfg.stall_abort_attempts (s.no_progress_attempts + 1)) (aborted, ends returned)
                (retry cfg attempt stalled) (λ stop. abort_reason s.failure)
                (λ again. retry-Continued attempt stalled sane'))
            (λ some_new. retry-Continued attempt s sane))

  pub after_loop-Continued :
      (attempt before zero_before busy : ℕ) (r : Session × Verdict)
      → Left log p id busy r
      → Continued log cfg p id attempt busy (after_loop cfg attempt before zero_before r)
  unfolding after_loop
  after_loop-Continued attempt before zero_before busy (s, waits) l = absurd l
  after_loop-Continued attempt before zero_before busy (s, session_done) l = l.0
  after_loop-Continued attempt before zero_before busy (s, conflict) l = l.0
  after_loop-Continued attempt before zero_before busy (s, timed_out) l =
      subst
        (λ n.
          Continued log cfg p id attempt n
            (after_loop cfg attempt before zero_before (s, timed_out)))
        l.1 (after_attempt-Continued attempt before _ s l.0)
  after_loop-Continued attempt before zero_before busy (s, cancelled) l =
      subst
        (λ n.
          Continued log cfg p id attempt n
            (after_loop cfg attempt before zero_before (s, cancelled)))
        l.1 (after_attempt-Continued attempt before _ s l.0)

  -- One turn of the waiting loop.
  turn-Left :
      (U : Type 0) (qs : List Pass) (q : Pass) (s : Session)
      → ((s' : Session)
          → Passed log cfg p id q s (s', waits)
          → Upto U (Left log p id s.fc_busy_waits) (wait_loop cfg p id qs s'))
      → (r : Session × Verdict) → Passed log cfg p id q s r
      → Upto U
          (Left log p id s.fc_busy_waits)
          (elim r.1 [ waits ↦ wait_loop cfg p id qs r.0 | v ↦ finished (r.0, v) ])
  turn-Left U qs q s rest (s', waits) p' = rest s' p'
  turn-Left U qs q s rest (s', session_done) p' = (p'.0, p'.1)
  turn-Left U qs q s rest (s', timed_out) p' = (p'.0, p'.1)
  turn-Left U qs q s rest (s', conflict) p' = (p'.0, p'.1)
  turn-Left U qs q s rest (s', cancelled) p' = (p'.0, p'.1)

  -- The loop, on a schedule that may be too short only with a proof of `U`.
  pub wait_loop-Left :
      (U : Type 0) (qs : List Pass) (clock : ℕ) (s : Session)
      → p.write_file ≡ true
      → AllPassesCarry log id qs
      → Sane log p id s
      → U ⊎ (Timely clock qs × (passes_left cfg p clock s < length qs))
      → Upto U (Left log p id s.fc_busy_waits) (wait_loop cfg p id qs s)
  unfolding wait_loop
  wait_loop-Left U [] clock s writes carry sane (inl u) = u
  wait_loop-Left U [] clock s writes carry sane (inr few) = absurd (omega (arith, few.1))
  wait_loop-Left U (q ∷ qs) clock s writes carry sane long =
      Upto-bind U (Passed log cfg p id q s) (Left log p id s.fc_busy_waits) (one_pass cfg p id q s)
        _
        (Upto-Returns U (Passed log cfg p id q s) (one_pass cfg p id q s)
          (one_pass-Passed log cfg p id q s writes carry.0 sane))
        (turn-Left U qs q s (λ s' passed.
          subst (λ n. Upto U (Left log p id n) (wait_loop cfg p id qs s')) passed.1
            (wait_loop-Left U qs q.now s' writes carry.1 passed.0 (elim long [
              | inl u ↦ inl u
              | inr few ↦ inr (
                few.0.3,
                passes_left-falls log cfg p id q clock s s' few.0.0 few.0.2 passed (length qs)
                    few.1,
              )
            ]))))
