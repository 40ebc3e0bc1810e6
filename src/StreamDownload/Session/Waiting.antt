-- ===== src/StreamDownload/Session/Waiting.antt =====
-- src/StreamDownloadSession.cpp: the waiting loop of `run`, with what it calls in src/LogDownloader.cpp. Instants are
-- milliseconds, 0 being the epoch. A pass says which messages arrive before it, what the clock shows, and whether
-- another thread has asked to cancel by then.
use mavlink_companion_log_se.Base.{
  ℕ, ◌-◌, ◌*◌, List, [], ◌∷◌, Bool, ◌&&◌, ◌||◌, not, ◌==◌, ltb, leb, Option, none, some,
  if◌then◌else◌,
}
use mavlink_companion_log_se.Base.Run.{Run, finished, fault, unfinished, ◌>>=◌, from_option}
use mavlink_companion_log_se.Types.{FailureReason}
use mavlink_companion_log_se.ReceivedRanges.{Span, bytes_received, complete}
use mavlink_companion_log_se.Coverage.{all_slots_received}
use mavlink_companion_log_se.LogDownloader.Inbox.{Inbox, Message, on_message, drain_log_data_chunks}
use mavlink_companion_log_se.StreamDownload.{Params, Stream, process_chunks}
use mavlink_companion_log_se.StreamDownload.Requests.{request_merged_gaps}

pub record Timing : Type 0 where
  pub retry_count : ℕ
  pub download_timeout_sec : ℕ
  pub stall_abort_attempts : ℕ
  pub fc_busy_retry_attempts : ℕ
  pub gap_fill_idle_ms : ℕ
  pub max_queued_log_data : ℕ

-- What is sent to the flight controller: LOG_REQUEST_DATA, LOG_REQUEST_END.
pub data Sent : Type 0 where
  log_request_data : Span → Sent
  log_request_end : Sent

-- A pass of the waiting loop; the clock is read at progress, and for the timers.
pub record Pass : Type 0 where
  pub messages : List Message
  pub cancelled : Bool
  pub progress_at : ℕ
  pub now : ℕ
  pub connected : Bool
  pub heartbeat_fresh : Bool

pub record Attempt : Type 0 where
  pub messages : List Message
  pub cancelled : Bool
  pub started_at : ℕ
  pub passes : List Pass

-- The locals of `run`, the inbox, and what was sent, the last first.
pub record Session : Type 0 where
  pub stream : Stream
  pub inbox : Inbox
  pub failure : FailureReason
  pub last_data_time : ℕ
  pub last_gap_request : ℕ
  pub last_progress_bytes : ℕ
  pub no_progress_attempts : ℕ
  pub fc_busy_waits : ℕ
  pub sent : List Sent

unfoldable pub receive : ℕ → List Message → Inbox → Option Inbox
receive limit [] q = some q
receive limit (m ∷ ms) q = elim (on_message limit q m) [
  | none ↦ none
  | some q' ↦ receive limit ms q'
]

unfoldable pub arrive : Timing → List Message → Session → Run Session
arrive cfg ms s = elim (receive cfg.max_queued_log_data ms s.inbox) [
  | none ↦ fault
  | some q ↦ finished (record s { inbox = q })
]

unfoldable pub send_all : List Span → List Sent → List Sent
send_all [] sent = sent
send_all (r ∷ rs) sent = send_all rs (log_request_data r ∷ sent)

unfoldable pub classify_timeout : Pass → FailureReason
classify_timeout q =
    if not q.connected
    then FailureReason.transport_closed
    else if not q.heartbeat_fresh
    then FailureReason.link_timeout
    else FailureReason.log_data_timeout

-- How the waiting loop is left, or a pass that goes on.
pub data Verdict : Type 0 where
  waits session_done timed_out conflict cancelled : Verdict

unfoldable pub note_progress : Pass → Session → Session
note_progress q s =
    let received = bytes_received s.stream.ranges in
    if ltb s.last_progress_bytes received
    then record s {
      last_data_time = q.progress_at;
      last_progress_bytes = received;
      no_progress_attempts = 0;
    }
    else s

unfoldable pub fill_gaps : Timing → ℕ → Pass → Session → Session
fill_gaps cfg total q s =
    if not (complete s.stream.ranges total)
      && leb cfg.gap_fill_idle_ms (q.now - s.last_data_time)
      && (s.last_gap_request == 0 || leb cfg.gap_fill_idle_ms (q.now - s.last_gap_request))
    then record s {
      sent = send_all (request_merged_gaps s.stream.ranges total) s.sent;
      last_gap_request = q.now;
    }
    else s

-- A pass from the progress on: done, or gaps to fill, or a timeout.
unfoldable pub check_progress : Timing → ℕ → Pass → Session → Session × Verdict
check_progress cfg total q s =
    let s1 = note_progress q s in
    let s2 = fill_gaps cfg total q s1 in
    if complete s1.stream.ranges total && all_slots_received s1.stream.coverage
    then (s1, session_done)
    else if leb (cfg.download_timeout_sec * 1000) (q.now - s2.last_data_time)
    then (record s2 { failure = classify_timeout q }, timed_out)
    else (s2, waits)

unfoldable pub take_chunks : Params → ℕ → Session → Option (Session × Bool)
take_chunks p log_id s =
    let (chunks, inbox) = drain_log_data_chunks s.inbox log_id in
    elim (process_chunks p chunks s.stream) [
      | none ↦ none
      | some (stream, fine) ↦ some (record s { stream = stream; inbox = inbox }, fine)
    ]

unfoldable pub one_pass : Timing → Params → ℕ → Pass → Session → Run (Session × Verdict)
one_pass cfg p log_id q s = arrive cfg q.messages s >>= λ s1.
    if q.cancelled
    then finished (s1, cancelled)
    else (from_option (take_chunks p log_id s1) >>= λ (r : Session × Bool).
        if not r.1
        then finished (record r.0 { failure = FailureReason.overlap_conflict }, conflict)
        else finished (check_progress cfg p.byte_count q r.0))

-- The loop on `owner_.cancelled()`.
unfoldable pub wait_loop : Timing → Params → ℕ → List Pass → Session → Run (Session × Verdict)
wait_loop cfg p log_id [] s = unfinished
wait_loop cfg p log_id (q ∷ qs) s = one_pass cfg p log_id q s >>= λ r. elim r.1 [
  | waits ↦ wait_loop cfg p log_id qs r.0
  | v ↦ finished (r.0, v)
]
