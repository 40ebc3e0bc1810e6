-- ===== src/Reread/Examples.antt =====
-- A re-read of one chunk of a log of 90 equal bytes.
use mavlink_companion_log_se.Base.{
  ℕ, zero, suc, ◌<◌, ◌≡◌, refl, List, [], ◌∷◌, Bool, true, false, some, get_elem?, replicate,
  length-replicate, arith,
}
use mavlink_companion_log_se.Base.Run.{Run, finished, Upto}
use mavlink_companion_log_se.Types.{LogEntry, ArchiveResult, FailureReason, FcRereadMode}
use mavlink_companion_log_se.Database.{empty_database, find_candidate}
use mavlink_companion_log_se.LogProtocol.{align_down_to_chunk, chunk_slot_index}
use mavlink_companion_log_se.FcSample.{
  seed_loop, seed_from_params, insert_offset, add_anchor, anchors, random_loop,
  build_fc_sample_offsets,
}
use mavlink_companion_log_se.LogDownloader.Inbox.{
  Inbox, log_data, empty_inbox, on_message, clear_data_chunks, queue_cap, trim_data_chunk_queue,
}
use mavlink_companion_log_se.LogDownloader.Archive.{
  Settings, SessionResult, Answers, Downloader, archive_one, unless_cancelled, cancel_if,
  download_full, download_log_data, verify_and_persist, verify_dataflash_file,
  verify_fc_sample_reread, persist,
}
use mavlink_companion_log_se.StreamDownload.Session.Waiting.{receive}
use mavlink_companion_log_se.Reread.{
  Poll, take_answer, wait_for_log_data, char_to_int, equals_char, same_bytes, read_window,
  reread_loop, RereadSettings, Outside, reread_sample, verify_fc_reread,
}
use mavlink_companion_log_se.Reread.Waited.{AllAsksCarry}
use mavlink_companion_log_se.Reread.Archived.{sampled, HasChunks, archive_one-reread}
use mavlink_companion_log_se.Reread.Signed.{verify_fc_reread_signed}

abbrev bytes : ℕ → List ℕ
bytes b = replicate 90 b

abbrev settings : RereadSettings
settings = record {
  timing = record {
    retry_count = 0;
    download_timeout_sec = 5;
    stall_abort_attempts = 3;
    fc_busy_retry_attempts = 0;
    gap_fill_idle_ms = 500;
    max_queued_log_data = 0;
  };
  detect_overlap_conflict = true;
  verify_fc_reread = FcRereadMode.sample;
  sample_count = 1;
}

abbrev entry : LogEntry
entry = record { id = 9; num_logs = 1; last_log_num = 9; time_utc = 0; size = 90 }

abbrev poll : ℕ → Poll
poll b = record { cancelled = false; messages = log_data 9 0 90 (bytes b) ∷ [] }

abbrev outside : Bool → ℕ → Outside
outside signed_char b = record {
  signed_char = signed_char;
  file = some (bytes b);
  asks = record { sent = true; polls = poll b ∷ [] } ∷ [];
  start_time = 0;
  attempts = [];
}

get_elem?-replicate : (n i b : ℕ) → i < n → get_elem? (replicate n b) i ≡ some b
get_elem?-replicate zero i b h = absurd (omega arith)
get_elem?-replicate (suc n) zero b h = refl
get_elem?-replicate (suc n) (suc i) b h = get_elem?-replicate n i b (omega arith)

carry : (signed_char : Bool) (b : ℕ) → AllAsksCarry (λ x. b) 9 (outside signed_char b).asks
carry signed_char b = (
  (
    (
      (omega (arith, length-replicate 90 b), omega arith, λ i lt e. get_elem?-replicate 90 i b lt),
      tt,
    ),
    tt,
  ),
  tt,
)

abbrev answer_of : Run (Inbox × Bool) → Bool
answer_of (finished (q, passed)) = passed
answer_of r = false

abbrev sample_of : Bool → ℕ → Run (Inbox × Bool)
sample_of signed_char b = verify_fc_reread settings entry [] (outside signed_char b) empty_inbox

sample_run : sample_of false 200 ≡ finished (empty_inbox, true)
unfolding verify_fc_reread reread_sample reread_loop wait_for_log_data take_answer char_to_int
    equals_char same_bytes read_window receive on_message clear_data_chunks queue_cap
    trim_data_chunk_queue build_fc_sample_offsets anchors add_anchor insert_offset
    align_down_to_chunk random_loop chunk_slot_index seed_from_params seed_loop
sample_run = refl

signed_run : answer_of (sample_of true 200) ≡ false
unfolding verify_fc_reread reread_sample reread_loop wait_for_log_data take_answer char_to_int
    equals_char same_bytes read_window receive on_message clear_data_chunks queue_cap
    trim_data_chunk_queue build_fc_sample_offsets anchors add_anchor insert_offset
    align_down_to_chunk random_loop chunk_slot_index seed_from_params seed_loop
signed_run = refl

verify_fc_reread_signed_example :
    Upto (Unit {0}) (λ (e : Inbox × Bool). e.1 ≡ false) (sample_of true 200)
verify_fc_reread_signed_example =
    verify_fc_reread_signed (λ x. 200) settings entry [] (outside true 200) 200 (replicate 89 200)
      empty_inbox refl refl (omega arith) (omega arith) (carry true 200) refl (omega arith)

abbrev session : SessionResult
session = record {
  success = true;
  failure = FailureReason.none;
  ranges = [];
  sha256 = [];
  probe_sha256 = [];
  probe_bytes = 0;
}

abbrev answers : Answers
answers = record {
  probe = session;
  cancels_in_probe = false;
  cancels_after_probe = false;
  opens = true;
  session = session;
  cancels_in_download = false;
  parses = true;
  rereads = true;
  finalized = some (record { final_path = []; archive_duration_ms = 0 });
  now = 0;
}

abbrev downloader : Downloader
downloader = record {
  database = empty_database;
  cancel_requested = false;
  last_failure_reason = FailureReason.none;
}

abbrev cfg : Settings
cfg = record {
  probe_bytes = 100;
  verify_after_download = false;
  verify_dataflash_parse = false;
  verify_fc_reread = FcRereadMode.sample;
}

downloaded_run : (archive_one cfg answers entry downloader).1 ≡ ArchiveResult.downloaded
unfolding archive_one find_candidate unless_cancelled cancel_if download_full download_log_data
    verify_and_persist verify_dataflash_file verify_fc_sample_reread persist
downloaded_run = refl

archive_one-reread_example : HasChunks (λ x. 200) (bytes 200) (sampled settings entry [])
archive_one-reread_example =
    archive_one-reread (λ x. 200) settings cfg answers entry (outside false 200) (bytes 200)
      downloader empty_inbox empty_inbox refl refl (carry false 200) refl
      (length-replicate {A = ℕ} 90 200) (omega arith) sample_run downloaded_run
