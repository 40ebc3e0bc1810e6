-- ===== src/Reread/Waited.antt =====
-- What a wait for one chunk of the log gives, if the messages carry bytes of the log.
use mavlink_companion_log_se.Base.{
  ℕ, ◌+◌, ◌<◌, ◌≡◌, ap, ◌∙◌, List, [], ◌∷◌, Bool, true, false, ◌&&◌, ◌==◌, Option, none, some,
  length, get_elem?, arith, Bool-cases, inl, inr,
}
use mavlink_companion_log_se.LogDownloader.Inbox.{LogDataChunk, Inbox, Message}
use mavlink_companion_log_se.StreamDownload.Session.Inbound.{
  AllCarry, Fits, Queued, receive-Handled,
}
use mavlink_companion_log_se.Reread.{Poll, take_answer, wait_for_log_data, Ask}

-- Every message of a schedule carries bytes of the log.
abbrev pub AllPollsCarry : (ℕ → ℕ) → ℕ → List Poll → Type 0
AllPollsCarry log id [] = Unit {0}
AllPollsCarry log id (p ∷ ps) = AllCarry log id p.messages × AllPollsCarry log id ps

abbrev pub AllAsksCarry : (ℕ → ℕ) → ℕ → List Ask → Type 0
AllAsksCarry log id [] = Unit {0}
AllAsksCarry log id (a ∷ as') = AllPollsCarry log id a.polls × AllAsksCarry log id as'

-- The bytes of a chunk at an offset, or of the file there.
abbrev pub BytesAt : (ℕ → ℕ) → ℕ → List ℕ → Type 0
BytesAt log x bytes = (i : ℕ) → i < length bytes → get_elem? bytes i ≡ some (log (x + i))

-- What the queue gives, and what it keeps.
abbrev Taken : (ℕ → ℕ) → ℕ → ℕ → Option (LogDataChunk × List LogDataChunk) → Type 0
Taken log id x none = Unit {0}
Taken log id x (some (c, rest)) = BytesAt log x c.bytes × Queued log id rest

Fits-BytesAt :
    (log : ℕ → ℕ) (id x : ℕ) (c : LogDataChunk)
    → Fits log id c
    → c.id ≡ id
    → c.offset ≡ x
    → BytesAt log x c.bytes
Fits-BytesAt log id x c f same at i lt =
    f.data' i (omega (arith, f.len)) same ∙ ap (λ y. some (log (y + i))) at

Taken-skip :
    (log : ℕ → ℕ) (id x : ℕ) (c : LogDataChunk) (o : Option (LogDataChunk × List LogDataChunk))
    → Fits log id c
    → Taken log id x o
    → Taken log id x (elim o [ none ↦ none | some (d, rest) ↦ some (d, c ∷ rest) ])
Taken-skip log id x c none f t = tt
Taken-skip log id x c (some (d, rest)) f t = (t.0, (f, t.1))

take_answer-Taken :
    (log : ℕ → ℕ) (id x : ℕ) (cs : List LogDataChunk)
    → Queued log id cs
    → Taken log id x (take_answer id x cs)
unfolding take_answer
take_answer-Taken log id x [] p = tt
take_answer-Taken log id x (c ∷ cs) p = elim (Bool-cases (c.id == id && c.offset == x)) [
  | inl mine ↦ rw (mine, Taken) (Fits-BytesAt log id x c p.0 (ground arith) (ground arith), p.1)
  | inr other ↦
      rw (other, Taken)
        (Taken-skip log id x c (take_answer id x cs) p.0 (take_answer-Taken log id x cs p.1))
]

-- What a wait gives.
abbrev pub Waited : (ℕ → ℕ) → ℕ → ℕ → Option (Inbox × Option (List ℕ)) → Type 0
Waited log id x none = ⊥
Waited log id x (some (q, none)) = Queued log id q.data_chunks
Waited log id x (some (q, some bytes)) =
    BytesAt log x bytes × (0 < length bytes) × Queued log id q.data_chunks

module _ (log : ℕ → ℕ) (max_queued id x : ℕ) (ps : List Poll)
    (next : (q : Inbox)
      → Queued log id q.data_chunks
      → Waited log id x (wait_for_log_data max_queued id x ps q)) where
  bytes-Waited :
      (q : Inbox) (bytes : List ℕ)
      → BytesAt log x bytes
      → Queued log id q.data_chunks
      → Waited log id x (elim bytes [
        | [] ↦ wait_for_log_data max_queued id x ps q
        | b ∷ bs ↦ some (q, some (b ∷ bs))
      ])
  bytes-Waited q [] at p = next q p
  bytes-Waited q (b ∷ bs) at p = (at, omega arith, p)

  answer-Waited :
      (q : Inbox) (o : Option (LogDataChunk × List LogDataChunk))
      → Queued log id q.data_chunks
      → Taken log id x o
      → Waited log id x (elim o [
        | none ↦ wait_for_log_data max_queued id x ps q
        | some (c, rest) ↦ elim c.bytes [
          | [] ↦ wait_for_log_data max_queued id x ps (record q { data_chunks = rest })
          | b ∷ bs ↦ some (record q { data_chunks = rest }, some (b ∷ bs))
        ]
      ])
  answer-Waited q none p t = next q p
  answer-Waited q (some (c, rest)) p t =
      bytes-Waited (record q { data_chunks = rest }) c.bytes t.0 t.1

  poll-Waited :
      (q : Inbox) (messages : List Message) (cancelled : Bool)
      → AllCarry log id messages
      → Queued log id q.data_chunks
      → Waited log id x (
          wait_for_log_data max_queued id x
            (record { cancelled = cancelled; messages = messages } ∷ ps)
            q)
  unfolding wait_for_log_data
  poll-Waited q messages true carry p = p
  poll-Waited q messages false carry p =
      let (q1, e, p1) = receive-Handled log id max_queued messages q carry p in
      rw (e, Waited, wait_for_log_data)
        (answer-Waited q1 (take_answer id x q1.data_chunks) p1
          (take_answer-Taken log id x q1.data_chunks p1))

pub wait-Waited :
    (log : ℕ → ℕ) (max_queued id x : ℕ) (ps : List Poll) (q : Inbox)
    → AllPollsCarry log id ps
    → Queued log id q.data_chunks
    → Waited log id x (wait_for_log_data max_queued id x ps q)
unfolding wait_for_log_data
wait-Waited log max_queued id x [] q carry p = p
wait-Waited log max_queued id x (poll ∷ ps) q carry p =
    poll-Waited log max_queued id x ps (λ q'. wait-Waited log max_queued id x ps q' carry.1) q
      poll.messages poll.cancelled carry.0 p
