-- ===== src/StreamDownload/Session.antt =====
-- src/StreamDownloadSession.cpp: `run`, and what it calls in src/LogDownloader.cpp. Instants are milliseconds, 0
-- being the epoch. An attempt is the list of the passes of its waiting loop; a pass, and an attempt, say
-- which messages arrive before it, what the clock shows, and whether another thread has asked to cancel by then.
-- The settings are not negative. The benchmark and progress lines are left out.
pub mod Judged
pub mod Waiting
pub mod Inbound
pub mod Passes
pub mod Delivered
pub mod Attempts
pub mod Outcome
pub mod Archived
mod Examples
use mavlink_companion_log_se.Base.{
  ℕ, ◌+◌, List, [], ◌∷◌, Bool, true, false, ◌&&◌, ◌||◌, not, ◌==◌, ltb, leb, Option, none, some,
  if◌then◌else◌,
}
use mavlink_companion_log_se.Base.Run.{Run, finished, unfinished, ◌>>=◌, from_option}
use mavlink_companion_log_se.Types.{Text, FailureReason}
use mavlink_companion_log_se.LogProtocol.{log_stream_request_count}
use mavlink_companion_log_se.ReceivedRanges.{bytes_received, complete}
use mavlink_companion_log_se.Sha256.{clone, finalize_hex, hash_hex}
use mavlink_companion_log_se.LogDownloader.Inbox.{Inbox, clear_data_chunks}
use mavlink_companion_log_se.LogDownloader.Archive.{SessionResult, probe_length}
use mavlink_companion_log_se.StreamDownload.{Params, new_stream}
use mavlink_companion_log_se.StreamDownload.Session.Waiting.{
  Attempt, Session, Timing, Verdict, arrive, cancelled, conflict, log_request_data, log_request_end,
  session_done, wait_loop,
}

-- The request at the start of an attempt.
unfoldable pub start_attempt : Params → ℕ → Attempt → Session → Session
start_attempt p attempt a s =
    if bytes_received s.stream.ranges == 0 || ltb 0 attempt
    then record s {
      sent =
          log_request_data (record { first = p.byte_offset; second = log_stream_request_count })
          ∷ s.sent;
      last_data_time = a.started_at;
    }
    else s

-- How `run` leaves its loop, or the next attempt.
pub data Ending : Type 0 where
  returned completed exhausted : Ending

pub data Onward : Type 0 where
  ends : Ending → Onward
  attempt_next : ℕ → Onward

unfoldable pub end_transfer : Session → Session
end_transfer s = record s { inbox = clear_data_chunks s.inbox; sent = log_request_end ∷ s.sent }

unfoldable pub retry : Timing → ℕ → Session → Session × Onward
retry cfg attempt s =
    (if ltb attempt cfg.retry_count then end_transfer s else s, attempt_next (attempt + 1))

unfoldable pub is_none : FailureReason → Bool
is_none FailureReason.none = true
is_none _ = false

-- After an attempt that did not complete; `before` are the bytes received by its start, and `answered` says
-- whether a LOG_DATA of length zero has come since.
unfoldable pub after_attempt : Timing → ℕ → ℕ → Bool → Session → Session × Onward
after_attempt cfg attempt before answered s =
    let received = bytes_received s.stream.ranges in
    let busy = record (end_transfer s) {
      fc_busy_waits = s.fc_busy_waits + 1;
      failure = FailureReason.none;
    } in
    let stalled = record s { no_progress_attempts = s.no_progress_attempts + 1 } in
    let aborted = record (end_transfer stalled) {
      failure = if is_none s.failure then FailureReason.no_progress else s.failure;
    } in
    if received == 0 && answered && ltb s.fc_busy_waits cfg.fc_busy_retry_attempts
    then (busy, attempt_next attempt)
    else if leb received before
    then if leb cfg.stall_abort_attempts (s.no_progress_attempts + 1)
      then (aborted, ends returned)
      else retry cfg attempt stalled
    else retry cfg attempt s

unfoldable pub after_loop : Timing → ℕ → ℕ → ℕ → Session × Verdict → Session × Onward
after_loop cfg attempt before zero_before (s, session_done) = (s, ends completed)
after_loop cfg attempt before zero_before (s, conflict) = (s, ends returned)
after_loop cfg attempt before zero_before (s, _) =
    after_attempt cfg attempt before (ltb zero_before s.inbox.zero_length_data_count) s

unfoldable pub one_attempt : Timing → Params → ℕ → ℕ → Attempt → Session → Run (Session × Onward)
one_attempt cfg p log_id attempt a s = arrive cfg a.messages s >>= λ s1.
    if a.cancelled
    then finished (record s1 { failure = FailureReason.cancelled }, ends returned)
    else (wait_loop cfg p log_id a.passes (start_attempt p attempt a s1) >>= λ r. finished (
        after_loop cfg attempt (bytes_received s1.stream.ranges) s1.inbox.zero_length_data_count r))

unfoldable pub run_loop : Timing → Params → ℕ → List Attempt → ℕ → Session → Run (Session × Ending)
run_loop cfg p log_id [] attempt s =
    if ltb cfg.retry_count attempt then finished (s, exhausted) else unfinished
run_loop cfg p log_id (a ∷ as') attempt s = elim (ltb cfg.retry_count attempt) [
  | true ↦ finished (s, exhausted)
  | false ↦ one_attempt cfg p log_id attempt a s >>= λ r. elim r.1 [
    | ends e ↦ finished (r.0, e)
    | attempt_next n ↦ run_loop cfg p log_id as' n r.0
  ]
]

-- What an early `return` leaves in the result.
unfoldable pub failed_result : Params → Session → SessionResult
failed_result p s = record {
  success = false;
  failure = s.failure;
  ranges = [];
  sha256 = [];
  probe_sha256 = s.stream.probe_sha256;
  probe_bytes = probe_length p.probe_bytes p.byte_count;
}

unfoldable pub incomplete_reason : Params → Session → FailureReason
incomplete_reason p s =
    if not (is_none s.failure)
    then s.failure
    else if complete s.stream.ranges p.byte_count
    then FailureReason.verification_failed
    else FailureReason.incomplete_download

-- The digest of the probe: of no bytes, of those so far, or the one taken on the way.
unfoldable pub probe_digest : Params → Session → Option Text
probe_digest p s =
    if probe_length p.probe_bytes p.byte_count == 0
    then hash_hex []
    else if not s.stream.probe_finalized
    then elim (finalize_hex (clone s.stream.hasher)) [ none ↦ none | some r ↦ some r.1 ]
    else some s.stream.probe_sha256

unfoldable pub complete_result : Params → Session → Option SessionResult
complete_result p s =
    if ltb 0 s.stream.coverage.overlap_conflicts
    then some (record (failed_result p s) { failure = FailureReason.overlap_conflict })
    else elim (probe_digest p s) [
      | none ↦ none
      | some probe ↦ elim (finalize_hex s.stream.hasher) [
        | none ↦ none
        | some r ↦ some (record (failed_result p s) {
          success = true;
          ranges = s.stream.ranges;
          sha256 = r.1;
          probe_sha256 = probe;
        })
      ]
    ]

unfoldable pub finish_run : Params → Session × Ending → Option SessionResult
finish_run p (s, returned) = some (failed_result p s)
finish_run p (s, exhausted) = some (record (failed_result p s) { failure = incomplete_reason p s })
finish_run p (s, completed) = complete_result p s

unfoldable pub empty_result : Params → Option SessionResult
empty_result p = elim (hash_hex []) [
  | none ↦ none
  | some digest ↦ some (record {
    success = true;
    failure = FailureReason.none;
    ranges = [];
    sha256 = digest;
    probe_sha256 = digest;
    probe_bytes = p.probe_bytes;
  })
]

unfoldable pub new_session : ℕ → ℕ → Inbox → Session
new_session total start_time q = record {
  stream = new_stream total;
  inbox = clear_data_chunks q;
  failure = FailureReason.none;
  last_data_time = start_time;
  last_gap_request = 0;
  last_progress_bytes = 0;
  no_progress_attempts = 0;
  fc_busy_waits = 0;
  sent = [];
}

-- The result, with the session as it was left.
unfoldable pub run : Timing → Params → ℕ → ℕ → List Attempt → Inbox → Run (Session × SessionResult)
run cfg p log_id start_time as' q =
    let start = new_session p.byte_count start_time q in
    if p.byte_count == 0
    then (from_option (empty_result p) >>= λ r. finished (record start { inbox = q }, r))
    else (run_loop cfg p log_id as' 0 start >>= λ (e : Session × Ending).
        from_option (finish_run p e) >>= λ r. finished (e.0, r))
