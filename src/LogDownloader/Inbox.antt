-- ===== src/LogDownloader/Inbox.antt =====
-- src/LogDownloader.cpp: `onMessage`, `drainLogDataChunks`, `trimDataChunkQueue`. The payload field of
-- LOG_DATA holds 90 bytes; a count beyond the field reads past it, which is `none`.
use mavlink_companion_log_se.Base.{
  ℕ, suc, ◌+◌, List, [], ◌∷◌, ◌++◌, true, false, ◌==◌, ltb, Option, none, some, if◌then◌else◌,
  length, take,
}
use mavlink_companion_log_se.Types.{LogEntry}

pub record LogDataChunk : Type 0 where
  pub id : ℕ
  pub offset : ℕ
  pub count : ℕ
  pub bytes : List ℕ

pub record Inbox : Type 0 where
  pub pending_entries : List LogEntry
  pub data_chunks : List LogDataChunk
  pub zero_length_data_count : ℕ

abbrev pub empty_inbox : Inbox
empty_inbox = record { pending_entries = []; data_chunks = []; zero_length_data_count = 0 }

-- A decoded message; of LOG_DATA the log, the offset, the count and the payload field.
pub data Message : Type 0 where
  log_entry : LogEntry → Message
  log_data : ℕ → ℕ → ℕ → List ℕ → Message
  other : Message

-- The loop that drops the oldest chunks.
unfoldable pub trim_data_chunk_queue : ℕ → List LogDataChunk → List LogDataChunk
trim_data_chunk_queue limit [] = []
trim_data_chunk_queue limit (c ∷ cs) = elim (ltb limit (suc (length cs))) [
  | true ↦ trim_data_chunk_queue limit cs
  | false ↦ c ∷ cs
]

unfoldable pub queue_cap : ℕ → ℕ
queue_cap max_queued_log_data = if ltb 0 max_queued_log_data then max_queued_log_data else 2048

unfoldable pub on_message : ℕ → Inbox → Message → Option Inbox
unfolding trim_data_chunk_queue queue_cap
on_message max_queued q (log_entry entry) =
    some (record q { pending_entries = q.pending_entries ++ entry ∷ [] })
on_message max_queued q (log_data id offset count field) =
    if count == 0
    then some (record q { zero_length_data_count = q.zero_length_data_count + 1 })
    else if ltb (length field) count
    then none
    else some (record q {
      data_chunks = trim_data_chunk_queue (queue_cap max_queued) (
          q.data_chunks
          ++ record { id = id; offset = offset; count = count; bytes = take count field } ∷ []);
    })
on_message max_queued q other = some q

-- The chunks of a log, in order, and what stays in the queue.
unfoldable pub drain_chunks : List LogDataChunk → ℕ → List LogDataChunk × List LogDataChunk
drain_chunks [] id = ([], [])
drain_chunks (c ∷ cs) id =
    let (out, rest) = drain_chunks cs id in if c.id == id then (c ∷ out, rest) else (out, c ∷ rest)

unfoldable pub drain_log_data_chunks : Inbox → ℕ → List LogDataChunk × Inbox
unfolding drain_chunks
drain_log_data_chunks q id =
    let (out, rest) = drain_chunks q.data_chunks id in (out, record q { data_chunks = rest })

unfoldable pub clear_data_chunks : Inbox → Inbox
clear_data_chunks q = record q { data_chunks = [] }
