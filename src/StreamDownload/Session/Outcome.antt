-- ===== src/StreamDownload/Session/Outcome.antt =====
-- What a run of a download session delivers, and that it ends.
use mavlink_companion_log_se.Base.{
  ℕ, ◌+◌, length, ◌≤◌, ◌<◌, ◌≡◌, ◌≢◌, refl, sym, ap, ◌∙◌, subst, List, [], true, false, ◌==◌, ltb,
  Option, none, some, arith, Bool-cases, inl, inr, ◌⊎◌,
}
use mavlink_companion_log_se.Base.Run.{
  finished, ◌>>=◌, from_option, Upto, Upto-bind, Returns-result,
}
use mavlink_companion_log_se.Types.{FailureReason}
use mavlink_companion_log_se.ReceivedRanges.{bytes_received, complete}
use mavlink_companion_log_se.ReceivedRanges.Gaps.{complete-covers}
use mavlink_companion_log_se.Coverage.{tracker_for, all_slots_received}
use mavlink_companion_log_se.Sha256.{hash_hex}
use mavlink_companion_log_se.Sha256.Digest.{sha256_digest, hash_hex-digest}
use mavlink_companion_log_se.LogDownloader.Inbox.{Inbox, clear_data_chunks}
use mavlink_companion_log_se.LogDownloader.Archive.{SessionResult, probe_length}
use mavlink_companion_log_se.StreamDownload.{Params, new_stream}
use mavlink_companion_log_se.StreamDownload.Taken.{finalize-open, clone-open}
use mavlink_companion_log_se.StreamDownload.Filled.{read_at, new_stream-Holds}
use mavlink_companion_log_se.StreamDownload.Session.{
  is_none, Ending, returned, completed, exhausted, run_loop, new_session, failed_result,
  incomplete_reason, probe_digest, complete_result, finish_run, empty_result, run,
}
use mavlink_companion_log_se.StreamDownload.Session.Waiting.{Timing, Attempt, Session}
use mavlink_companion_log_se.StreamDownload.Session.Judged.{Sane, IsComplete}
use mavlink_companion_log_se.StreamDownload.Session.Delivered.{AllAttemptsCarry, Ended}
use mavlink_companion_log_se.StreamDownload.Session.Attempts.{AllLong, run_loop-Ended}

-- A result that is a success comes with the whole log in the file; any other has a reason.
abbrev pub Delivered : (ℕ → ℕ) → Params → Session × SessionResult → Type 0
Delivered log p (s, r) =
    ((r.success ≡ true)
      × (complete r.ranges p.byte_count ≡ true)
      × (all_slots_received s.stream.coverage ≡ true)
      × ((x : ℕ) → x < p.byte_count → read_at s.stream.file x ≡ some (log x)))
    ⊎ ((r.success ≡ false) × (r.failure ≢ FailureReason.none) × (r.ranges ≡ []))

ne_none : (f : FailureReason) → is_none f ≡ false → f ≢ FailureReason.none
unfolding is_none
ne_none f e h = cc (sym e ∙ ap is_none h)

incomplete_reason-some : (p : Params) (s : Session) → is_none (incomplete_reason p s) ≡ false
unfolding incomplete_reason is_none
incomplete_reason-some p s = ground arith

hash_hex-nil : (d : List ℕ) × (hash_hex [] ≡ some d)
hash_hex-nil = (sha256_digest [], hash_hex-digest [] (omega arith))

probe_digest-some :
    (p : Params) (s : Session)
    → s.stream.hasher.finalized ≡ false
    → (d : List ℕ) × (probe_digest p s ≡ some d)
unfolding probe_digest
probe_digest-some p s open' =
    let (r, cloned) = clone-open s.stream.hasher open' in
    let (none_read, hashed) = hash_hex-nil in
    elim (Bool-cases (probe_length p.probe_bytes p.byte_count == 0)) [
      | inl no_probe ↦ rw no_probe (none_read, hashed)
      | inr probe ↦ rw probe (elim (Bool-cases s.stream.probe_finalized) [
        | inl early ↦ rw early (s.stream.probe_sha256, refl)
        | inr late ↦ rw late (r.1, ap (λ o. elim o [ none ↦ none | some x ↦ some x.1 ]) cloned)
      ])
    ]

module _ (log : ℕ → ℕ) (p : Params) (id : ℕ) where
  -- What `finish_run` makes of an end.
  abbrev Settled : Session → Option SessionResult → Type 0
  Settled s o = (r : SessionResult) × (o ≡ some r) × Delivered log p (s, r)

  complete_result-Settled :
      (s : Session) → Sane log p id s → IsComplete p s → Settled s (complete_result p s)
  unfolding complete_result failed_result
  complete_result-Settled s sane whole =
      let (probe, probed) = probe_digest-some p s sane.stream.open' in
      let (r, hashed) = finalize-open s.stream.hasher sane.stream.open' in
      let no_conflict : ltb 0 s.stream.coverage.overlap_conflicts ≡ false =
        ap (λ n. ltb 0 n) sane.stream.clean in
      (
        record (failed_result p s) {
          success = true;
          ranges = s.stream.ranges;
          sha256 = r.1;
          probe_sha256 = probe;
        },
        rw (no_conflict, probed, hashed) refl,
        inl (
          refl,
          whole.0,
          whole.1,
          λ x lt. sane.stream.filled x (complete-covers s.stream.ranges p.byte_count x whole.0 lt),
        ),
      )

  finish_run-Settled : (e : Session × Ending) → Ended log p id e → Settled e.0 (finish_run p e)
  unfolding finish_run failed_result
  finish_run-Settled (s, returned) e = (_, refl, inr (refl, ne_none s.failure e, refl))
  finish_run-Settled (s, completed) e = complete_result-Settled s e.0 e.1
  finish_run-Settled (s, exhausted) e =
      (_, refl, inr (refl, ne_none (incomplete_reason p s) (incomplete_reason-some p s), refl))

  finish-Delivered :
      (U : Type 0) (e : Session × Ending)
      → Ended log p id e
      → Upto U (Delivered log p) (from_option (finish_run p e) >>= λ r. finished (e.0, r))
  finish-Delivered U e ended =
      let (r, done, d) = finish_run-Settled e ended in
      subst (λ o. Upto U (Delivered log p) (from_option o >>= λ r. finished (e.0, r))) (sym done) d

  no_slots : all_slots_received (tracker_for 0) ≡ true
  unfolding all_slots_received tracker_for
  no_slots = refl

  empty_result-some :
      (r : SessionResult) × (empty_result p ≡ some r) × (r.success ≡ true) × (r.ranges ≡ [])
  unfolding empty_result
  empty_result-some = (
    _,
    ap
        (λ o. elim o [
          | none ↦ none
          | some d ↦ some (record {
            success = true;
            failure = FailureReason.none;
            ranges = [];
            sha256 = d;
            probe_sha256 = d;
            probe_bytes = p.probe_bytes;
          })
        ])
        hash_hex-nil.1,
    refl,
    refl,
  )

  empty-Delivered :
      (U : Type 0) (start_time : ℕ) (q : Inbox)
      → p.byte_count ≡ 0
      → Upto U (Delivered log p) (
          from_option (empty_result p) >>= λ r.
          finished (record (new_session p.byte_count start_time q) { inbox = q }, r))
  unfolding new_session new_stream complete
  empty-Delivered U start_time q zero_bytes =
      let start : Session = record (new_session p.byte_count start_time q) { inbox = q } in
      let (r, done, success, ranges) = empty_result-some in
      subst (λ o. Upto U (Delivered log p) (from_option o >>= λ r. finished (start, r))) (sym done)
        (inl (
          success,
          ap (λ rs. complete rs p.byte_count) ranges ∙ ground (arith, zero_bytes),
          ap (λ n. all_slots_received (tracker_for n)) zero_bytes ∙ no_slots,
          λ x lt. absurd (omega (arith, zero_bytes)),
        ))

module _ (log : ℕ → ℕ) (cfg : Timing) (p : Params) (id : ℕ) where
  new-Sane : (start_time : ℕ) (q : Inbox) → Sane log p id (new_session p.byte_count start_time q)
  unfolding new_session clear_data_chunks
  new-Sane start_time q = record { stream = new_stream-Holds log p p.byte_count; queue = tt }

  new-nothing :
      (start_time : ℕ) (q : Inbox)
      → bytes_received (new_session p.byte_count start_time q).stream.ranges ≡ 0
  unfolding new_session new_stream bytes_received
  new-nothing start_time q = refl

  run-Upto :
      (U : Type 0) (start_time : ℕ) (as' : List Attempt) (q : Inbox)
      → p.write_file ≡ true
      → AllAttemptsCarry log id as'
      → U ⊎ (AllLong cfg p as' × (cfg.retry_count + 1 + cfg.fc_busy_retry_attempts ≤ length as'))
      → Upto U (Delivered log p) (run cfg p id start_time as' q)
  unfolding run
  run-Upto U start_time as' q writes carry long = elim (Bool-cases (p.byte_count == 0)) [
    | inl empty ↦ rw (empty, run) (empty-Delivered log p id U start_time q (ground arith))
    | inr some_bytes ↦
        rw (some_bytes, run)
          (Upto-bind U (Ended log p id) (Delivered log p)
            (run_loop cfg p id as' 0 (new_session p.byte_count start_time q)) _
            (run_loop-Ended log cfg p id writes U as' 0 (new_session p.byte_count start_time q)
              carry (new-Sane start_time q) (inr (new-nothing start_time q))
              (elim long [ inl u ↦ inl u | inr l ↦ inr (l.0, omega (arith, l.1)) ]))
            (finish-Delivered log p id U))
  ]

  -- Whatever the schedule, where the messages carry bytes of the log: the code has no fault, and a result that
  -- reports success comes with complete ranges, with all slots received, and with a file that has each byte of
  -- the log in its place; a result that does not has a reason and no ranges.
  pub run-Delivered :
      (start_time : ℕ) (as' : List Attempt) (q : Inbox)
      → p.write_file ≡ true
      → AllAttemptsCarry log id as'
      → Upto (Unit {0}) (Delivered log p) (run cfg p id start_time as' q)
  run-Delivered start_time as' q writes carry =
      run-Upto (Unit {0}) start_time as' q writes carry (inl tt)

  -- The session ends with such a result. It makes at most one attempt more than the retries and the waits for
  -- a busy flight controller; and an attempt has at most one pass for each millisecond of the timeout, again
  -- for each byte that was asked for, if the clock moves on from pass to pass.
  pub run_ends :
      (start_time : ℕ) (as' : List Attempt) (q : Inbox)
      → p.write_file ≡ true
      → AllAttemptsCarry log id as'
      → AllLong cfg p as'
      → cfg.retry_count + 1 + cfg.fc_busy_retry_attempts ≤ length as'
      → (e : Session × SessionResult) × (run cfg p id start_time as' q ≡ finished e)
        × Delivered log p e
  run_ends start_time as' q writes carry long many =
      Returns-result (Delivered log p) (run cfg p id start_time as' q)
        (run-Upto ⊥ start_time as' q writes carry (inr (long, many)))
