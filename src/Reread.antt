-- ===== src/Reread.antt =====
-- src/LogDownloader.cpp: `verifyFcSampleReread` and `waitForLogData`. Bytes of the downloaded file are asked from the
-- flight controller again and compared. The file is the list of its bytes; a read that meets the end of the file
-- leaves the stream failed. A wait is the list of its polls up to the deadline: whether another thread has
-- asked to cancel by then, and the messages that arrive before the lock is taken again. Whether a plain `char` is signed
-- depends on the platform and is an argument. What is sent is left out.
pub mod Waited
pub mod Sampled
pub mod Archived
pub mod Signed
mod Examples
use mavlink_companion_log_se.Base.{
  ℕ, ◌-◌, List, [], ◌∷◌, Bool, true, false, ◌&&◌, ◌==◌, leb, Option, none, some, if◌then◌else◌,
  length, take, drop,
}
use mavlink_companion_log_se.Base.Int.{ℤ, pos, negsuc}
use mavlink_companion_log_se.Base.Run.{Run, finished, fault, unfinished, ◌>>=◌}
use mavlink_companion_log_se.Types.{Text, text_eq, LogEntry, FcRereadMode}
use mavlink_companion_log_se.LogProtocol.{chunk_size}
use mavlink_companion_log_se.FcSample.{build_fc_sample_offsets}
use mavlink_companion_log_se.LogDownloader.Inbox.{LogDataChunk, Inbox, Message, clear_data_chunks}
use mavlink_companion_log_se.LogDownloader.Archive.{SessionResult}
use mavlink_companion_log_se.StreamDownload.{Params}
use mavlink_companion_log_se.StreamDownload.Session.{run}
use mavlink_companion_log_se.StreamDownload.Session.Waiting.{Timing, Attempt, Session, receive}

pub record Poll : Type 0 where
  pub cancelled : Bool
  pub messages : List Message

-- The first chunk of the log at the offset, and the queue without it.
unfoldable pub take_answer : ℕ → ℕ → List LogDataChunk → Option (LogDataChunk × List LogDataChunk)
take_answer id offset [] = none
take_answer id offset (c ∷ cs) = elim (c.id == id && c.offset == offset) [
  | true ↦ some (c, cs)
  | false ↦ elim (take_answer id offset cs) [ none ↦ none | some (d, rest) ↦ some (d, c ∷ rest) ]
]

-- An empty chunk is erased, and the wait goes on.
unfoldable pub wait_for_log_data : ℕ → ℕ → ℕ → List Poll → Inbox → Option (Inbox × Option (List ℕ))
wait_for_log_data max_queued id offset [] q = some (q, none)
wait_for_log_data max_queued id offset (p ∷ ps) q = elim p.cancelled [
  | true ↦ some (q, none)
  | false ↦ elim (receive max_queued p.messages q) [
    | none ↦ none
    | some q1 ↦ elim (take_answer id offset q1.data_chunks) [
      | none ↦ wait_for_log_data max_queued id offset ps q1
      | some (c, rest) ↦ elim c.bytes [
        | [] ↦ wait_for_log_data max_queued id offset ps (record q1 { data_chunks = rest })
        | b ∷ bs ↦ some (record q1 { data_chunks = rest }, some (b ∷ bs))
      ]
    ]
  ]
]

-- A byte of the file that was read into a `char`.
unfoldable pub char_to_int : Bool → ℕ → ℤ
char_to_int signed_char b = if signed_char && leb 128 b then negsuc (255 - b) else pos b

-- A `uint8_t` and a `char` are compared as `int`.
unfoldable pub equals_char : Bool → ℕ → ℕ → Bool
equals_char signed_char b c = elim (char_to_int signed_char c) [ pos n ↦ b == n | negsuc n ↦ false ]

-- The comparison of the lengths, then `std::equal`.
unfoldable pub same_bytes : Bool → List ℕ → List ℕ → Bool
same_bytes signed_char [] [] = true
same_bytes signed_char [] (c ∷ cs) = false
same_bytes signed_char (b ∷ bs) [] = false
same_bytes signed_char (b ∷ bs) (c ∷ cs) =
    equals_char signed_char b c && same_bytes signed_char bs cs

-- Whether the request for one offset is sent, and the wait for its answer.
pub record Ask : Type 0 where
  pub sent : Bool
  pub polls : List Poll

-- What the stream reads at an offset, once it is asked for.
unfoldable pub read_window : Bool → List ℕ → ℕ → List ℕ
read_window good file offset = if good then take chunk_size (drop offset file) else []

-- The loop over the offsets; `good` is the state of the stream.
unfoldable pub reread_loop :
    Bool → ℕ → ℕ → List ℕ → List ℕ → List Ask → Bool → Inbox → Run (Inbox × Bool)
reread_loop signed_char max_queued id file [] asks good q = finished (q, true)
reread_loop signed_char max_queued id file (x ∷ xs) [] good q = unfinished
reread_loop signed_char max_queued id file (x ∷ xs) (a ∷ as') good q = elim a.sent [
  | false ↦ finished (q, false)
  | true ↦ elim (wait_for_log_data max_queued id x a.polls q) [
    | none ↦ fault
    | some (q1, none) ↦ finished (q1, false)
    | some (q1, some chunk) ↦ elim (same_bytes signed_char chunk (read_window good file x)) [
      | false ↦ finished (q1, false)
      | true ↦
          reread_loop signed_char max_queued id file xs as'
            (good && length (read_window good file x) == chunk_size) q1
    ]
  ]
]

-- The settings that a re-read uses.
pub record RereadSettings : Type 0 where
  pub timing : Timing
  pub detect_overlap_conflict : Bool
  pub verify_fc_reread : FcRereadMode
  pub sample_count : ℕ

-- A second download, without a file.
unfoldable pub reread_full :
    RereadSettings → LogEntry → Text → ℕ → List Attempt → Inbox → Run (Inbox × Bool)
reread_full cfg entry sha256 start_time as' q =
    let p : Params = record {
      byte_offset = 0;
      byte_count = entry.size;
      probe_bytes = 0;
      write_file = false;
      detect_overlap_conflict = cfg.detect_overlap_conflict;
    } in
    run cfg.timing p entry.id start_time as' (clear_data_chunks q)
    >>= λ (r : Session × SessionResult).
        finished (r.0.inbox, r.1.success && text_eq r.1.sha256 sha256)

-- The file, none if it does not open; then what the flight controller answers, for either kind of re-read.
pub record Outside : Type 0 where
  pub signed_char : Bool
  pub file : Option (List ℕ)
  pub asks : List Ask
  pub start_time : ℕ
  pub attempts : List Attempt

unfoldable pub reread_sample : ℕ → ℕ → LogEntry → Text → Outside → Inbox → Run (Inbox × Bool)
reread_sample max_queued sample_count entry sha256 o q =
    let offsets = build_fc_sample_offsets entry.size sample_count entry.id entry.size sha256 in
    elim offsets [
      | [] ↦ finished (q, true)
      | x ∷ xs ↦ elim o.file [
        | none ↦ finished (q, false)
        | some file ↦
            reread_loop o.signed_char max_queued entry.id file (x ∷ xs) o.asks true
              (clear_data_chunks q)
      ]
    ]

unfoldable pub verify_fc_reread :
    RereadSettings → LogEntry → Text → Outside → Inbox → Run (Inbox × Bool)
verify_fc_reread cfg entry sha256 o q = elim cfg.verify_fc_reread [
  | FcRereadMode.none ↦ finished (q, true)
  | FcRereadMode.full ↦ reread_full cfg entry sha256 o.start_time o.attempts q
  | FcRereadMode.sample ↦
      reread_sample cfg.timing.max_queued_log_data cfg.sample_count entry sha256 o q
]
