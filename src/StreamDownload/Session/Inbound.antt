-- ===== src/StreamDownload/Session/Inbound.antt =====
-- The chunks that wait in the inbox, if the messages carry bytes of the log.
use mavlink_companion_log_se.Base.{
  ℕ, zero, suc, ◌+◌, ◌-◌, ◌^◌, ◌≤◌, ◌<◌, ◌≡◌, refl, ap, ◌∙◌, List, [], ◌∷◌, ◌++◌, ◌==◌, Option,
  none, some, length, get_elem?, take, drop, length-take, arith, Bool-cases, inl, inr,
}
use mavlink_companion_log_se.LogDownloader.Inbox.{
  LogDataChunk, Inbox, Message, log_entry, log_data, other, on_message, queue_cap, drain_chunks,
}
use mavlink_companion_log_se.LogDownloader.Queue.{on_message-log_data}
use mavlink_companion_log_se.StreamDownload.Filled.{IsOf, AllOf, get_elem?-take}
use mavlink_companion_log_se.StreamDownload.Session.Waiting.{receive}

-- A LOG_DATA message fills at most its payload field, and one for the log `id` carries bytes of it.
abbrev pub Carries : (ℕ → ℕ) → ℕ → Message → Type 0
Carries log id (log_entry e) = Unit {0}
Carries log id (log_data of offset count field) =
    (count ≤ length field)
    × (offset + count < 2 ^ 32)
    × ((i : ℕ) → i < count → of ≡ id → get_elem? field i ≡ some (log (offset + i)))
Carries log id other = Unit {0}

abbrev pub AllCarry : (ℕ → ℕ) → ℕ → List Message → Type 0
AllCarry log id [] = Unit {0}
AllCarry log id (m ∷ ms) = Carries log id m × AllCarry log id ms

-- The same of the chunks in the queue.
pub record Fits (log : ℕ → ℕ) (id : ℕ) (c : LogDataChunk) : Type 0 where
  pub len : length c.bytes ≡ c.count
  pub range : c.offset + c.count < 2 ^ 32
  pub data' : (i : ℕ) → i < c.count → c.id ≡ id → get_elem? c.bytes i ≡ some (log (c.offset + i))

abbrev pub Queued : (ℕ → ℕ) → ℕ → List LogDataChunk → Type 0
Queued log id [] = Unit {0}
Queued log id (c ∷ cs) = Fits log id c × Queued log id cs

Queued-append :
    (log : ℕ → ℕ) (id : ℕ) (cs ds : List LogDataChunk)
    → Queued log id cs
    → Queued log id ds
    → Queued log id (cs ++ ds)
Queued-append log id [] ds p q = q
Queued-append log id (c ∷ cs) ds p q = (p.0, Queued-append log id cs ds p.1 q)

Queued-drop :
    (log : ℕ → ℕ) (id n : ℕ) (cs : List LogDataChunk) → Queued log id cs → Queued log id (drop n cs)
Queued-drop log id zero cs p = p
Queued-drop log id (suc n) [] p = p
Queued-drop log id (suc n) (c ∷ cs) p = Queued-drop log id n cs p.1

-- A message that is handled.
abbrev Handled : (ℕ → ℕ) → ℕ → Option Inbox → Type 0
Handled log id o = (q : Inbox) × (o ≡ some q) × Queued log id q.data_chunks

on_message-Handled :
    (log : ℕ → ℕ) (id limit : ℕ) (q : Inbox) (m : Message)
    → Carries log id m
    → Queued log id q.data_chunks
    → Handled log id (on_message limit q m)
unfolding on_message
on_message-Handled log id limit q (log_entry e) c p = (_, refl, p)
on_message-Handled log id limit q (log_data of offset zero field) c p = (_, refl, p)
on_message-Handled log id limit q (log_data of offset (suc n) field) c p =
    let chunk : LogDataChunk = record {
      id = of;
      offset = offset;
      count = suc n;
      bytes = take (suc n) field;
    } in
    let all = q.data_chunks ++ chunk ∷ [] in
    let fits : Fits log id chunk = record {
      len = omega (arith, length-take (suc n) field, c.0);
      range = c.1;
      data' = λ i lt same. get_elem?-take (suc n) i field lt ∙ c.2 i lt same;
    } in
    (
      record q { data_chunks = drop (length all - queue_cap limit) all },
      (on_message-log_data limit q of offset (suc n) field (omega arith) c.0).0,
      Queued-drop log id (length all - queue_cap limit) all
          (Queued-append log id q.data_chunks (chunk ∷ []) p (fits, tt)),
    )
on_message-Handled log id limit q other c p = (q, refl, p)

pub receive-Handled :
    (log : ℕ → ℕ) (id limit : ℕ) (ms : List Message) (q : Inbox)
    → AllCarry log id ms
    → Queued log id q.data_chunks
    → Handled log id (receive limit ms q)
unfolding receive
receive-Handled log id limit [] q c p = (q, refl, p)
receive-Handled log id limit (m ∷ ms) q c p =
    let (q1, e, p1) = on_message-Handled log id limit q m c.0 p in
    let (q2, rest, p2) = receive-Handled log id limit ms q1 c.1 p1 in
    (q2, ap (λ o. elim o [ none ↦ none | some q' ↦ receive limit ms q' ]) e ∙ rest, p2)

-- What is drained is of the log, and the rest waits as before.
pub drain_chunks-Queued :
    (log : ℕ → ℕ) (id : ℕ) (cs : List LogDataChunk)
    → Queued log id cs
    → AllOf log (drain_chunks cs id).0 × Queued log id (drain_chunks cs id).1
unfolding drain_chunks
drain_chunks-Queued log id [] p = (tt, tt)
drain_chunks-Queued log id (c ∷ cs) p =
    let (of, rest) = drain_chunks-Queued log id cs p.1 in
    elim (Bool-cases (c.id == id)) [
      | inl mine ↦
          let of_log : IsOf log c = record {
            len = p.0.len;
            range = p.0.range;
            data' = λ i lt. p.0.data' i lt (ground arith);
          } in
          rw mine ((of_log, of), rest)
      | inr not_mine ↦ rw not_mine (of, (p.0, rest))
    ]
