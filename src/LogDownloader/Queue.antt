-- ===== src/LogDownloader/Queue.antt =====
-- The message queue: what survives trimming, and draining one log's chunks.
use mavlink_companion_log_se.Base.{
  ℕ, suc, ◌+◌, ◌-◌, ◌≤◌, ◌<◌, ◌≡◌, ◌≢◌, refl, ap, ◌∙◌, List, [], ◌∷◌, ◌++◌, ltb, none, some, length,
  length-append, take, drop, arith, Bool-cases, inl, inr, length-drop,
}
use mavlink_companion_log_se.LogDownloader.Inbox.{
  LogDataChunk, Inbox, log_data, trim_data_chunk_queue, queue_cap, on_message, drain_chunks,
  drain_log_data_chunks,
}

trim-drop :
    (limit : ℕ) (q : List LogDataChunk) → trim_data_chunk_queue limit q ≡ drop (length q - limit) q
unfolding trim_data_chunk_queue
trim-drop limit [] = ground arith
trim-drop limit (c ∷ cs) = elim (Bool-cases (ltb limit (suc (length cs)))) [
  | inl over ↦
      let e : suc (length cs - limit) ≡ suc (length cs) - limit = ground arith in
      rw (over, trim_data_chunk_queue) (trim-drop limit cs ∙ ap (λ n. drop n (c ∷ cs)) e)
  | inr fits ↦
      let e : 0 ≡ suc (length cs) - limit = ground arith in
      rw (fits, trim_data_chunk_queue) (ap (λ n. drop n (c ∷ cs)) e)
]

queue_cap-pos : (n : ℕ) → 0 < queue_cap n
unfolding queue_cap
queue_cap-pos n = ground arith

-- A LOG_DATA message with a count from 1 to the field's length ends up last in the queue, cut to that
-- count, behind as many of the newest chunks as the limit allows; the oldest are dropped.
pub on_message-log_data :
    (max_queued : ℕ) (q : Inbox) (id offset count : ℕ) (field : List ℕ)
    → 0 < count
    → count ≤ length field
    → let limit = queue_cap max_queued in
      let all =
        q.data_chunks
        ++ record { id = id; offset = offset; count = count; bytes = take count field } ∷ [] in
      (on_message max_queued q (log_data id offset count field)
        ≡ some (record q { data_chunks = drop (length all - limit) all }))
      × (length (drop (length all - limit) all) ≤ limit)
      × (0 < length (drop (length all - limit) all))
unfolding on_message
on_message-log_data max_queued q id offset count field some_bytes fits =
    let chunk : LogDataChunk = record {
      id = id;
      offset = offset;
      count = count;
      bytes = take count field;
    } in
    let all : List LogDataChunk = q.data_chunks ++ chunk ∷ [] in
    let cut = length-drop (length all - queue_cap max_queued) all in
    (
      ground (arith, trim-drop (queue_cap max_queued) all),
      omega (arith, cut),
      omega (arith, cut, queue_cap-pos max_queued, length-append q.data_chunks (chunk ∷ [])),
    )

-- A count beyond the payload field is read past the field's end, whatever the queue holds: the handler
-- does not compare it with the length of the field.
on_message_overread :
    (max_queued : ℕ) (q : Inbox) (id offset count : ℕ) (field : List ℕ)
    → length field < count
    → on_message max_queued q (log_data id offset count field) ≡ none
unfolding on_message
on_message_overread max_queued q id offset count field over = ground arith

drain_again : (cs : List LogDataChunk) (id : ℕ) → (drain_chunks (drain_chunks cs id).1 id).0 ≡ []
unfolding drain_chunks
drain_again [] id = refl
drain_again (c ∷ cs) id = ground (arith, drain_again cs id)

drain_other :
    (cs : List LogDataChunk) (id other : ℕ)
    → other ≢ id
    → (drain_chunks (drain_chunks cs id).1 other).0 ≡ (drain_chunks cs other).0
unfolding drain_chunks
drain_other [] id other ne = refl
drain_other (c ∷ cs) id other ne = ground (arith, drain_other cs id other ne)

drain-length :
    (cs : List LogDataChunk) (id : ℕ)
    → length (drain_chunks cs id).0 + length (drain_chunks cs id).1 ≡ length cs
unfolding drain_chunks
drain-length [] id = refl
drain-length (c ∷ cs) id = ground (arith, drain-length cs id)

-- Draining one log takes out all of its chunks, loses none, and leaves what another log would
-- drain, in the same order.
pub drain_log_data_chunks_lem :
    (q : Inbox) (id other : ℕ)
    → other ≢ id
    → let r = drain_log_data_chunks q id in
      ((drain_log_data_chunks r.1 id).0 ≡ [])
      × ((drain_log_data_chunks r.1 other).0 ≡ (drain_log_data_chunks q other).0)
      × (length r.0 + length r.1.data_chunks ≡ length q.data_chunks)
unfolding drain_log_data_chunks
drain_log_data_chunks_lem q id other ne = (
  drain_again q.data_chunks id,
  drain_other q.data_chunks id other ne,
  drain-length q.data_chunks id,
)
