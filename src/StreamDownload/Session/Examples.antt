-- ===== src/StreamDownload/Session/Examples.antt =====
-- A session for a log of two bytes.
use mavlink_companion_log_se.StreamDownload.Session.{
  run, run_loop, one_attempt, start_attempt, new_session, after_attempt, after_loop,
  complete_result, end_transfer, failed_result, finish_run, probe_digest,
}
use mavlink_companion_log_se.StreamDownload.Session.Waiting.{
  arrive, receive, wait_loop, one_pass, take_chunks, check_progress, classify_timeout, fill_gaps,
  note_progress,
}
use mavlink_companion_log_se.StreamDownload.{
  process_chunks, new_stream, process_chunk, write_length, count_duplicate, end_offset,
  finalize_probe, hash_chunk, keep_chunk, note_range, write_chunk,
}
use mavlink_companion_log_se.LogDownloader.Inbox.{
  on_message, drain_log_data_chunks, clear_data_chunks, drain_chunks, queue_cap,
  trim_data_chunk_queue,
}
use mavlink_companion_log_se.LogDownloader.Archive.{probe_length}
use mavlink_companion_log_se.ReceivedRanges.{bytes_received, add, complete, merge}
use mavlink_companion_log_se.Coverage.{
  all_slots_received, bitmap_set, bitmap_test, mark_slot, record_chunk, tracker_for,
}
use mavlink_companion_log_se.LogProtocol.{chunk_count_for_size, chunk_slot_index}
use mavlink_companion_log_se.Sha256.{clone, finalize_hex, fresh, update, absorb, push_byte}
use mavlink_companion_log_se.Base.{
  ℕ, zero, suc, ◌+◌, ◌<◌, ◌≡◌, refl, sym, ap, ◌∙◌, List, [], ◌∷◌, Bool, true, false, some,
  get_elem?, arith,
}
use mavlink_companion_log_se.Base.Run.{Run, finished, Upto}
use mavlink_companion_log_se.LogDownloader.Inbox.{Message, log_data, empty_inbox}
use mavlink_companion_log_se.LogDownloader.Archive.{
  Settings, SessionResult, Answers, Downloader, archive_one, unless_cancelled, cancel_if,
  download_full, download_log_data, verify_and_persist, verify_dataflash_file,
  verify_fc_sample_reread, persist,
}
use mavlink_companion_log_se.Types.{LogEntry, ArchiveResult, FailureReason, FcRereadMode}
use mavlink_companion_log_se.Database.{empty_database, find_candidate}
use mavlink_companion_log_se.Storage.Partials.{
  FilePath, archive, same_path, write_path, remove_path, rename_path, Manager, begin_partial_file,
  Finalizing, finalize_partial, store_log,
}
use mavlink_companion_log_se.Storage.Archived.{HoldsLog, archive_one-HoldsLog}
use mavlink_companion_log_se.Types.{text_eq}
use mavlink_companion_log_se.Base.{none, Option, inl, inr}
use mavlink_companion_log_se.StreamDownload.Filled.{read_at}
use mavlink_companion_log_se.StreamDownload.{Params}
use mavlink_companion_log_se.StreamDownload.Session.Waiting.{Timing, Pass, Attempt, Session}
use mavlink_companion_log_se.StreamDownload.Session.Outcome.{Delivered, run-Delivered, run_ends}

abbrev timing : Timing
timing = record {
  retry_count = 0;
  download_timeout_sec = 0;
  stall_abort_attempts = 3;
  fc_busy_retry_attempts = 0;
  gap_fill_idle_ms = 500;
  max_queued_log_data = 0;
}

abbrev two_bytes : Params
two_bytes = record {
  byte_offset = 0;
  byte_count = 2;
  probe_bytes = 100;
  write_file = true;
  detect_overlap_conflict = true;
}

abbrev pass_at : ℕ → List Message → Pass
pass_at now messages = record {
  messages = messages;
  cancelled = false;
  progress_at = now;
  now = now;
  connected = true;
  heartbeat_fresh = true;
}

-- The bytes of the log are 5 and 6.
abbrev the_message : Message
the_message = log_data 9 0 2 (5 ∷ 6 ∷ [])

abbrev attempt : Attempt
attempt = record {
  messages = [];
  cancelled = false;
  started_at = 1000;
  passes = pass_at 1001 (the_message ∷ []) ∷ pass_at 1002 [] ∷ pass_at 1003 [] ∷ [];
}

bytes_of_log : (i : ℕ) → i < 2 → get_elem? {A = ℕ} (5 ∷ 6 ∷ []) i ≡ some (5 + (0 + i))
bytes_of_log zero h = refl
bytes_of_log (suc zero) h = refl
bytes_of_log (suc (suc i)) h = absurd (omega arith)

run-Delivered_example :
    Upto
      (Unit {0})
      (Delivered (λ x. 5 + x) two_bytes)
      (run timing two_bytes 9 1000 (attempt ∷ []) empty_inbox)
run-Delivered_example =
    run-Delivered (λ x. 5 + x) timing two_bytes 9 1000 (attempt ∷ []) empty_inbox refl
      (
        (tt, ((((omega arith), (omega arith), (λ i lt e. bytes_of_log i lt)), tt), (tt, (tt, tt)))),
        tt,
      )

run_ends_example :
    (e : Session × SessionResult) × (run timing two_bytes 9 1000 (attempt ∷ []) empty_inbox
      ≡ finished e)
    × Delivered (λ x. 5 + x) two_bytes e
unfolding end_offset
run_ends_example =
    run_ends (λ x. 5 + x) timing two_bytes 9 1000 (attempt ∷ []) empty_inbox refl
      (
        (tt, ((((omega arith), (omega arith), (λ i lt e. bytes_of_log i lt)), tt), (tt, (tt, tt)))),
        tt,
      )
      (((omega arith), (omega arith)), tt) (omega arith)

success_of : Run (Session × SessionResult) → Bool
success_of (finished e) = e.1.success
success_of r = false

two_bytes_arrive : success_of (run timing two_bytes 9 1000 (attempt ∷ []) empty_inbox) ≡ true
unfolding success_of run run_loop one_attempt arrive receive wait_loop one_pass take_chunks
    start_attempt new_session after_attempt after_loop check_progress classify_timeout
    complete_result end_transfer failed_result fill_gaps finish_run note_progress probe_digest
    process_chunks new_stream process_chunk write_length count_duplicate end_offset finalize_probe
    hash_chunk keep_chunk note_range write_chunk on_message drain_log_data_chunks clear_data_chunks
    drain_chunks queue_cap trim_data_chunk_queue probe_length bytes_received add complete merge
    all_slots_received bitmap_set bitmap_test mark_slot record_chunk tracker_for
    chunk_count_for_size chunk_slot_index clone finalize_hex fresh update absorb push_byte
two_bytes_arrive = refl

abbrev entry : LogEntry
entry = record { id = 9; num_logs = 1; last_log_num = 9; time_utc = 0; size = 2 }

abbrev settings : Settings
settings = record {
  probe_bytes = 100;
  verify_after_download = false;
  verify_dataflash_parse = false;
  verify_fc_reread = FcRereadMode.none;
}

-- The answers for the log, with the result of its session.
abbrev answers : SessionResult → Answers
answers r = record {
  probe = r;
  cancels_in_probe = false;
  cancels_after_probe = false;
  opens = true;
  session = r;
  cancels_in_download = false;
  parses = true;
  rereads = true;
  finalized = some (record { final_path = []; archive_duration_ms = 0 });
  now = 0;
}

abbrev downloader : Downloader
downloader = record {
  database = empty_database;
  cancel_requested = false;
  last_failure_reason = FailureReason.none;
}

is_downloaded :
    (r : SessionResult)
    → r.success ≡ true
    → (archive_one settings (answers r) entry downloader).1 ≡ ArchiveResult.downloaded
unfolding archive_one find_candidate unless_cancelled cancel_if download_full download_log_data
    verify_and_persist verify_dataflash_file verify_fc_sample_reread persist
is_downloaded r e = rw e refl

the_run :
    (e : Session × SessionResult) × (run timing two_bytes 9 1000 (attempt ∷ []) empty_inbox
      ≡ finished e)
    × (e.1.success ≡ true)
    × ((x : ℕ) → x < 2 → read_at e.0.stream.file x ≡ some (5 + x))
unfolding success_of
the_run =
    let (e, ran, delivered) = run_ends_example in
    let good : e.1.success ≡ true = sym (ap success_of ran) ∙ two_bytes_arrive in
    (
      e,
      ran,
      good,
      λ x lt. elim delivered [
        | inl whole ↦ whole.3 x lt
        | inr bad ↦ absurd (cc (sym bad.0 ∙ good))
      ],
    )

abbrev manager : Manager
manager = record { partial_counter = 0; disk = λ q. none }

abbrev at_noon : Finalizing
at_noon = record { day = 1 ∷ []; stamp = 12 ∷ []; fsyncs = true; renames = true }

abbrev stored : SessionResult → Manager × Option FilePath
stored r = store_log settings (answers r) entry downloader (11 ∷ []) at_noon (5 ∷ 6 ∷ []) manager

is_stored :
    (r : SessionResult) → r.success ≡ true → (stored r).1 ≡ some (archive (1 ∷ []) (12 ∷ []))
unfolding store_log begin_partial_file write_path remove_path rename_path same_path finalize_partial
    download_log_data verify_dataflash_file verify_fc_sample_reread text_eq
is_stored r e = rw e refl

archive_one-HoldsLog_example :
    HoldsLog (λ x. 5 + x) 2 (archive (1 ∷ []) (12 ∷ [])) (stored the_run.0.1).0.disk
archive_one-HoldsLog_example =
    archive_one-HoldsLog (λ x. 5 + x) timing two_bytes 1000 (attempt ∷ []) empty_inbox settings
      (answers the_run.0.1) entry downloader the_run.0.0 (11 ∷ []) at_noon (5 ∷ 6 ∷ []) manager refl
      refl
      (
        (tt, ((((omega arith), (omega arith), (λ i lt e. bytes_of_log i lt)), tt), (tt, (tt, tt)))),
        tt,
      )
      the_run.1
      (λ x lt. bytes_of_log x lt ∙ ap (λ y. some (5 + y)) (omega arith) ∙ sym (the_run.3 x lt))
      (λ e. absurd (cc (sym (is_stored the_run.0.1 the_run.2) ∙ e)))
      (is_downloaded the_run.0.1 the_run.2)
