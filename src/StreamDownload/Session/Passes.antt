-- ===== src/StreamDownload/Session/Passes.antt =====
-- One pass of the waiting loop, for messages that carry bytes of the log.
use mavlink_companion_log_se.Base.{
  ℕ, ◌-◌, ◌*◌, ◌≡◌, refl, sym, ap, ◌∙◌, subst, List, Bool, true, false, ◌&&◌, ◌||◌, not, ◌==◌, ltb,
  leb, none, some, if◌then◌else◌, arith, inl, inr, ◌⊎◌,
}
use mavlink_companion_log_se.Base.Run.{
  Run, finished, fault, unfinished, ◌>>=◌, from_option, Returns, Upto-bind,
}
use mavlink_companion_log_se.Types.{FailureReason}
use mavlink_companion_log_se.ReceivedRanges.{bytes_received, complete}
use mavlink_companion_log_se.Coverage.{all_slots_received}
use mavlink_companion_log_se.LogDownloader.Inbox.{Message, drain_log_data_chunks, drain_chunks}
use mavlink_companion_log_se.StreamDownload.{Params}
use mavlink_companion_log_se.StreamDownload.Filled.{process_chunks-Holds}
use mavlink_companion_log_se.StreamDownload.Session.{is_none}
use mavlink_companion_log_se.StreamDownload.Session.Waiting.{
  Timing, Pass, Session, Verdict, waits, session_done, timed_out, conflict, cancelled, arrive,
  note_progress, fill_gaps, check_progress, classify_timeout, send_all, take_chunks, one_pass,
}
use mavlink_companion_log_se.StreamDownload.Requests.{request_merged_gaps}
use mavlink_companion_log_se.StreamDownload.Session.Inbound.{
  AllCarry, receive-Handled, drain_chunks-Queued,
}
use mavlink_companion_log_se.StreamDownload.Session.Judged.{
  Arrived, Passed, Sane, fill_gaps_lem, note_progress_lem,
}

module _ (log : ℕ → ℕ) (cfg : Timing) (p : Params) (id : ℕ) where
  pub arrive-Arrived :
      (ms : List Message) (s : Session)
      → AllCarry log id ms
      → Sane log p id s
      → Returns (Arrived log p id s) (arrive cfg ms s)
  unfolding arrive
  arrive-Arrived ms s carry sane =
      let (q, e, queued) =
        receive-Handled log id cfg.max_queued_log_data ms s.inbox carry sane.queue in
      subst
        (λ o.
          Returns (Arrived log p id s)
            (elim o [ none ↦ fault | some q ↦ finished (record s { inbox = q }) ]))
        (sym e) (record { stream = sane.stream; queue = queued }, refl, refl, refl, refl)

  -- The chunks of a pass: those kept, or a conflict.
  abbrev Chunked : Session → Session × Bool → Type 0
  Chunked s (s', fine) =
      (s'.fc_busy_waits ≡ s.fc_busy_waits)
      × (s'.last_progress_bytes ≡ s.last_progress_bytes)
      × (s'.last_data_time ≡ s.last_data_time)
      × ((fine ≡ false) ⊎ Sane log p id s')

  take_chunks-Chunked :
      (s : Session)
      → p.write_file ≡ true
      → Sane log p id s
      → Returns (Chunked s) (from_option (take_chunks p id s))
  unfolding take_chunks drain_log_data_chunks
  take_chunks-Chunked s writes sane =
      let chunks = drain_chunks s.inbox.data_chunks id in
      let (of, rest) = drain_chunks-Queued log id s.inbox.data_chunks sane.queue in
      let (r, e, verdict) = process_chunks-Holds log p chunks.0 s.stream writes of sane.stream in
      subst
        (λ o. Returns (Chunked s) (
          from_option (elim o [
            | none ↦ none
            | some (stream, fine) ↦ some (
              record s { stream = stream; inbox = record s.inbox { data_chunks = chunks.1 } },
              fine,
            )
          ])))
        (sym e)
        (
          refl,
          refl,
          refl,
          elim verdict [
            | inl stop ↦ inl stop
            | inr holds ↦ inr (record { stream = holds; queue = rest })
          ],
        )

  Sane-if :
      (b : Bool) (x y : Session)
      → Sane log p id x
      → Sane log p id y
      → Sane log p id (if b then x else y)
  Sane-if true x y u v = u
  Sane-if false x y u v = v

  note_progress-Sane :
      (q : Pass) (s : Session) → Sane log p id s → Sane log p id (note_progress q s)
  unfolding note_progress
  note_progress-Sane q s sane =
      Sane-if (ltb s.last_progress_bytes (bytes_received s.stream.ranges))
        (record s {
          last_data_time = q.progress_at;
          last_progress_bytes = bytes_received s.stream.ranges;
          no_progress_attempts = 0;
        })
        s (record { stream = sane.stream; queue = sane.queue }) sane

  fill_gaps-Sane :
      (q : Pass) (s : Session) → Sane log p id s → Sane log p id (fill_gaps cfg p.byte_count q s)
  unfolding fill_gaps
  fill_gaps-Sane q s sane =
      Sane-if
        (not (complete s.stream.ranges p.byte_count)
          && leb cfg.gap_fill_idle_ms (q.now - s.last_data_time)
          && (s.last_gap_request == 0 || leb cfg.gap_fill_idle_ms (q.now - s.last_gap_request)))
        (record s {
          sent = send_all (request_merged_gaps s.stream.ranges p.byte_count) s.sent;
          last_gap_request = q.now;
        })
        s (record { stream = sane.stream; queue = sane.queue }) sane

  pick-Passed :
      (q : Pass) (s : Session) (b c : Bool) (x y : Session) (f : FailureReason)
      → (b ≡ true → Passed log cfg p id q s (x, session_done))
      → Passed log cfg p id q s (record y { failure = f }, timed_out)
      → (c ≡ false → Passed log cfg p id q s (y, waits))
      → Passed log cfg p id q s (
          if b
          then (x, session_done)
          else if c
          then (record y { failure = f }, timed_out)
          else (y, waits))
  pick-Passed q s true c x y f d t w = d refl
  pick-Passed q s false true x y f d t w = t
  pick-Passed q s false false x y f d t w = w refl

  check_progress-Passed :
      (q : Pass) (s : Session)
      → Sane log p id s
      → Passed log cfg p id q s (check_progress cfg p.byte_count q s)
  unfolding check_progress
  check_progress-Passed q s sane =
      let s1 = note_progress q s in
      let s2 = fill_gaps cfg p.byte_count q s1 in
      let sane1 = note_progress-Sane q s sane in
      let sane2 = fill_gaps-Sane q s1 sane1 in
      let (stream1, busy1, moved) = note_progress_lem q s in
      let (stream2, busy2, progress2, data2) = fill_gaps_lem cfg p.byte_count q s1 in
      pick-Passed q s
        (complete s1.stream.ranges p.byte_count && all_slots_received s1.stream.coverage)
        (leb (cfg.download_timeout_sec * 1000) (q.now - s2.last_data_time)) s1 s2
        (classify_timeout q) (λ all. ((sane1, (ground arith, ground arith)), busy1, tt))
        (record { stream = sane2.stream; queue = sane2.queue }, busy2 ∙ busy1, tt)
        (λ early. (
          sane2,
          busy2 ∙ busy1,
          (
            ground arith,
            elim moved [
              | inl still ↦ inl (progress2 ∙ still.0, data2 ∙ still.1)
              | inr on ↦ inr (
                omega (arith, on.0),
                progress2 ∙ on.1 ∙ ap (λ x. bytes_received x.ranges) (sym stream2),
                data2 ∙ on.2,
              )
            ],
          ),
        ))

  -- The times of `s` for those of a session that has not moved on.
  Passed-from :
      (q : Pass) (s s' : Session) (r : Session × Verdict)
      → s'.fc_busy_waits ≡ s.fc_busy_waits
      → s'.last_progress_bytes ≡ s.last_progress_bytes
      → s'.last_data_time ≡ s.last_data_time
      → Passed log cfg p id q s' r
      → Passed log cfg p id q s r
  Passed-from q s s' (t, waits) busy progress data' (j, b, (early, moved)) = (
    j,
    b ∙ busy,
    (
      early,
      elim moved [
        | inl still ↦ inl (still.0 ∙ progress, still.1 ∙ data')
        | inr on ↦ inr (omega (arith, on.0), on.1, on.2)
      ],
    ),
  )
  Passed-from q s s' (t, session_done) busy progress data' (j, b, m) = (j, b ∙ busy, m)
  Passed-from q s s' (t, timed_out) busy progress data' (j, b, m) = (j, b ∙ busy, m)
  Passed-from q s s' (t, conflict) busy progress data' (j, b, m) = (j, b ∙ busy, m)
  Passed-from q s s' (t, cancelled) busy progress data' (j, b, m) = (j, b ∙ busy, m)

  Returns-from :
      (q : Pass) (s s' : Session)
      → s'.fc_busy_waits ≡ s.fc_busy_waits
      → s'.last_progress_bytes ≡ s.last_progress_bytes
      → s'.last_data_time ≡ s.last_data_time
      → (m : Run (Session × Verdict)) → Returns (Passed log cfg p id q s') m
      → Returns (Passed log cfg p id q s) m
  Returns-from q s s' busy progress data' (finished r) m =
      Passed-from q s s' r busy progress data' m
  Returns-from q s s' busy progress data' fault m = elim m [ ]
  Returns-from q s s' busy progress data' unfinished m = elim m [ ]

  judge-Passed :
      (q : Pass) (s : Session) (r : Session × Bool)
      → Chunked s r
      → Returns (Passed log cfg p id q s) (
          if not r.1
          then finished (record r.0 { failure = FailureReason.overlap_conflict }, conflict)
          else finished (check_progress cfg p.byte_count q r.0))
  unfolding is_none
  judge-Passed q s (s', false) (busy, progress, data', verdict) = (refl, busy, tt)
  judge-Passed q s (s', true) (busy, progress, data', inl stop) = absurd (cc stop)
  judge-Passed q s (s', true) (busy, progress, data', inr sane) =
      Passed-from q s s' (check_progress cfg p.byte_count q s') busy progress data'
        (check_progress-Passed q s' sane)

  pass-Passed :
      (q : Pass) (s : Session) (stop : Bool)
      → p.write_file ≡ true
      → Sane log p id s
      → Returns (Passed log cfg p id q s) (
          if stop
          then finished (s, cancelled)
          else (from_option (take_chunks p id s) >>= λ (r : Session × Bool).
              if not r.1
              then finished (record r.0 { failure = FailureReason.overlap_conflict }, conflict)
              else finished (check_progress cfg p.byte_count q r.0)))
  pass-Passed q s true writes sane = (sane, refl, tt)
  pass-Passed q s false writes sane =
      Upto-bind ⊥ (Chunked s) (Passed log cfg p id q s) (from_option (take_chunks p id s)) _
        (take_chunks-Chunked s writes sane) (judge-Passed q s)

  -- A pass has no fault, and leaves the session as its verdict says.
  pub one_pass-Passed :
      (q : Pass) (s : Session)
      → p.write_file ≡ true
      → AllCarry log id q.messages
      → Sane log p id s
      → Returns (Passed log cfg p id q s) (one_pass cfg p id q s)
  unfolding one_pass
  one_pass-Passed q s writes carry sane =
      Upto-bind ⊥ (Arrived log p id s) (Passed log cfg p id q s) (arrive cfg q.messages s) _
        (arrive-Arrived q.messages s carry sane)
        (λ s1 (sane1, busy, progress, data', stream).
          Returns-from q s s1 busy progress data' _ (pass-Passed q s1 q.cancelled writes sane1))
