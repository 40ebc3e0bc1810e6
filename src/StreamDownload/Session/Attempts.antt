-- ===== src/StreamDownload/Session/Attempts.antt =====
-- An attempt, and the loop over the attempts.
use mavlink_companion_log_se.Base.{
  ℕ, ◌+◌, ◌-◌, ◌*◌, length, ◌≤◌, ◌<◌, ◌≡◌, refl, sym, ap, ◌∙◌, subst, List, [], ◌∷◌, Bool, true,
  false, ◌||◌, ◌==◌, ltb, if◌then◌else◌, arith, Bool-cases, inl, inr, ◌⊎◌,
}
use mavlink_companion_log_se.Base.Run.{finished, ◌>>=◌, Upto, Upto-bind, Upto-Returns}
use mavlink_companion_log_se.Types.{FailureReason}
use mavlink_companion_log_se.ReceivedRanges.{bytes_received}
use mavlink_companion_log_se.StreamDownload.{Params, end_offset}
use mavlink_companion_log_se.StreamDownload.Filled.{Holds}
use mavlink_companion_log_se.StreamDownload.Session.{
  is_none, start_attempt, returned, Onward, ends, attempt_next, after_loop, one_attempt, run_loop,
}
use mavlink_companion_log_se.StreamDownload.Session.Waiting.{
  Timing, Attempt, Session, arrive, wait_loop,
}
use mavlink_companion_log_se.StreamDownload.Session.Inbound.{Queued}
use mavlink_companion_log_se.StreamDownload.Session.Passes.{arrive-Arrived}
use mavlink_companion_log_se.StreamDownload.Session.Judged.{Sane, Arrived}
use mavlink_companion_log_se.StreamDownload.Session.Delivered.{
  AttemptCarries, AllAttemptsCarry, Left, Ended, Continued, Timely, passes_left,
  after_loop-Continued, wait_loop-Left,
}

-- An attempt with more passes than it can need.
abbrev pub IsLong : Timing → Params → Attempt → Type 0
IsLong cfg p a =
    Timely a.started_at a.passes
    × (end_offset p * (cfg.download_timeout_sec * 1000 + 1) + cfg.download_timeout_sec * 1000
        < length a.passes)

abbrev pub AllLong : Timing → Params → List Attempt → Type 0
AllLong cfg p [] = Unit {0}
AllLong cfg p (a ∷ as') = IsLong cfg p a × AllLong cfg p as'

-- In the first attempt, and in each repeat of it, nothing has been received.
abbrev pub IsNew : ℕ → Session → Type 0
IsNew attempt s = (0 < attempt) ⊎ (bytes_received s.stream.ranges ≡ 0)

mul-sub-le : (a b t : ℕ) → (a - b) * t ≤ a * t
mul-sub-le a b t = grind arith

start_attempt_lem :
    (cfg : Timing) (p : Params) (attempt : ℕ) (a : Attempt) (s : Session)
    → IsNew attempt s
    → let s' = start_attempt p attempt a s in
      (s'.stream ≡ s.stream)
      × (s'.inbox ≡ s.inbox)
      × (s'.fc_busy_waits ≡ s.fc_busy_waits)
      × (passes_left cfg p a.started_at s'
          ≤ end_offset p * (cfg.download_timeout_sec * 1000 + 1) + cfg.download_timeout_sec * 1000)
unfolding start_attempt passes_left
start_attempt_lem cfg p attempt a s new =
    let first : (bytes_received s.stream.ranges == 0 || ltb 0 attempt) ≡ true = ground arith in
    rw first (
      refl,
      refl,
      refl,
      omega (
        arith,
        mul-sub-le (end_offset p) s.last_progress_bytes (cfg.download_timeout_sec * 1000 + 1),
      ),
    )

module _ (log : ℕ → ℕ) (cfg : Timing) (p : Params) (id : ℕ) (writes : p.write_file ≡ true) where
  -- The attempt proper, once its messages have arrived.
  started-Continued :
      (U : Type 0) (attempt : ℕ) (a : Attempt) (s : Session) (stop : Bool)
      → AttemptCarries log id a
      → Sane log p id s
      → IsNew attempt s
      → U ⊎ IsLong cfg p a
      → Upto U (Continued log cfg p id attempt s.fc_busy_waits) (
          if stop
          then finished (record s { failure = FailureReason.cancelled }, ends returned)
          else (wait_loop cfg p id a.passes (start_attempt p attempt a s) >>= λ r. finished (
              after_loop cfg attempt
                (bytes_received s.stream.ranges)
                s.inbox.zero_length_data_count
                r)))
  unfolding is_none
  started-Continued U attempt a s true carry sane new long = refl
  started-Continued U attempt a s false carry sane new long =
      let s' = start_attempt p attempt a s in
      let (stream, inbox, busy, few) = start_attempt_lem cfg p attempt a s new in
      let sane' : Sane log p id s' = record {
        stream = subst (Holds log p) (sym stream) sane.stream;
        queue = subst (λ q. Queued log id q.data_chunks) (sym inbox) sane.queue;
      } in
      Upto-bind U (Left log p id s.fc_busy_waits) (Continued log cfg p id attempt s.fc_busy_waits)
        (wait_loop cfg p id a.passes s') _
        (subst (λ n. Upto U (Left log p id n) (wait_loop cfg p id a.passes s')) busy
          (wait_loop-Left log cfg p id U a.passes a.started_at s' writes carry.1 sane'
            (elim long [ inl u ↦ inl u | inr l ↦ inr (l.0, omega (arith, l.1)) ])))
        (after_loop-Continued log cfg p id attempt (bytes_received s.stream.ranges)
          s.inbox.zero_length_data_count s.fc_busy_waits)

  one_attempt-Continued :
      (U : Type 0) (attempt : ℕ) (a : Attempt) (s : Session)
      → AttemptCarries log id a
      → Sane log p id s
      → IsNew attempt s
      → U ⊎ IsLong cfg p a
      → Upto U (Continued log cfg p id attempt s.fc_busy_waits) (one_attempt cfg p id attempt a s)
  unfolding one_attempt
  one_attempt-Continued U attempt a s carry sane new long =
      Upto-bind U (Arrived log p id s) (Continued log cfg p id attempt s.fc_busy_waits)
        (arrive cfg a.messages s) _
        (Upto-Returns U (Arrived log p id s) (arrive cfg a.messages s)
          (arrive-Arrived log cfg p id a.messages s carry.0 sane))
        (λ s1 (sane1, busy, progress, data', stream).
          subst
            (λ n. Upto U (Continued log cfg p id attempt n) (
              if a.cancelled
              then finished (record s1 { failure = FailureReason.cancelled }, ends returned)
              else (wait_loop cfg p id a.passes (start_attempt p attempt a s1) >>= λ r. finished (
                  after_loop cfg attempt (bytes_received s1.stream.ranges)
                    s1.inbox.zero_length_data_count r))))
            busy
            (started-Continued U attempt a s1 a.cancelled carry sane1
              (elim new [
                | inl later ↦ inl later
                | inr none_yet ↦ inr (ap (λ x. bytes_received x.ranges) stream ∙ none_yet)
              ])
              long))

  turn-Ended :
      (U : Type 0) (as' : List Attempt) (attempt : ℕ) (s : Session)
      → ((n : ℕ) (s' : Session)
          → Continued log cfg p id attempt s.fc_busy_waits (s', attempt_next n)
          → Upto U (Ended log p id) (run_loop cfg p id as' n s'))
      → (r : Session × Onward) → Continued log cfg p id attempt s.fc_busy_waits r
      → Upto U
          (Ended log p id)
          (elim r.1 [ ends e ↦ finished (r.0, e) | attempt_next n ↦ run_loop cfg p id as' n r.0 ])
  turn-Ended U as' attempt s rest (s', ends e) c = c
  turn-Ended U as' attempt s rest (s', attempt_next n) c = rest n s' c

  -- The attempts that are left, with the waits for a busy flight controller.
  abbrev pub Enough : List Attempt → ℕ → Session → Type 0
  Enough as' attempt s =
      AllLong cfg p as'
      × ((cfg.retry_count + 1 - attempt) + (cfg.fc_busy_retry_attempts - s.fc_busy_waits)
          ≤ length as')

  Enough-falls :
      (a : Attempt) (as' : List Attempt) (attempt n : ℕ) (s s' : Session)
      → ltb cfg.retry_count attempt ≡ false
      → Continued log cfg p id attempt s.fc_busy_waits (s', attempt_next n)
      → Enough (a ∷ as') attempt s
      → Enough as' n s'
  Enough-falls a as' attempt n s s' more c enough = (
    enough.0.1,
    elim c.1 [
      | inl next ↦ ground (arith, next.0, next.1)
      | inr again ↦ ground (arith, again.0, again.1, again.2)
    ],
  )

  pub run_loop-Ended :
      (U : Type 0) (as' : List Attempt) (attempt : ℕ) (s : Session)
      → AllAttemptsCarry log id as'
      → Sane log p id s
      → IsNew attempt s
      → U ⊎ Enough as' attempt s
      → Upto U (Ended log p id) (run_loop cfg p id as' attempt s)
  unfolding run_loop
  run_loop-Ended U [] attempt s carry sane new long =
      elim (Bool-cases (ltb cfg.retry_count attempt)) [
        | inl over ↦ rw over tt
        | inr more ↦
            rw more (elim long [ inl u ↦ u | inr enough ↦ absurd (ground (arith, enough.1)) ])
      ]
  run_loop-Ended U (a ∷ as') attempt s carry sane new long =
      elim (Bool-cases (ltb cfg.retry_count attempt)) [
        | inl over ↦ rw (over, run_loop) tt
        | inr more ↦
            rw (more, run_loop)
              (Upto-bind U (Continued log cfg p id attempt s.fc_busy_waits) (Ended log p id)
                (one_attempt cfg p id attempt a s) _
                (one_attempt-Continued U attempt a s carry.0 sane new
                  (elim long [ inl u ↦ inl u | inr enough ↦ inr enough.0.0 ]))
                (turn-Ended U as' attempt s (λ n s' c.
                  run_loop-Ended U as' n s' carry.1 c.0
                    (elim c.1 [ inl next ↦ inl (omega (arith, next.0)) | inr again ↦ inr again.3 ])
                    (elim long [
                      | inl u ↦ inl u
                      | inr enough ↦ inr (Enough-falls a as' attempt n s s' more c enough)
                    ]))))
      ]
