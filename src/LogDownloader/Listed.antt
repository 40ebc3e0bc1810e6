-- ===== src/LogDownloader/Listed.antt =====
-- The list that `enumerateLogs` of src/LogDownloader.cpp returns.
use mavlink_companion_log_se.Base.{
  ℕ, ◌+◌, ◌≡◌, refl, ap, ◌∙◌, List, [], ◌∷◌, ◌++◌, Bool, true, false, ◌==◌, leb, Has, Has-if_cases,
  inl, inr, ◌⊎◌,
}
use mavlink_companion_log_se.Types.{LogEntry}
use mavlink_companion_log_se.LogDownloader.Enumerate.{
  Window, Enumeration, not_empty, attempts, insert_entry, sort_entries, unique_from, unique_entries,
  enumerate_logs, has_id, IsRising, FromId-sort, IsRising-unique, has_id_unique, has_id-sort,
}

-- Nothing arrives in the windows, and no cancel.
abbrev pub Quiet : List Window → Type 0
Quiet [] = Unit {0}
Quiet (w ∷ ws) =
    ((w.arrived ≡ []) × (w.cancels_waiting ≡ false) × (w.cancels_sleeping ≡ false)) × Quiet ws

abbrev nothing_yet : ℕ → Enumeration
nothing_yet n = record { pending_entries = []; cancel_requested = false; requests = n }

attempts-hears :
    (n : ℕ) (w : Window) (ws : List Window)
    → not_empty w.arrived ≡ true
    → (attempts (nothing_yet n) (w ∷ ws)).pending_entries ≡ w.arrived
unfolding attempts
attempts-hears n w ws some_arrive = rw (some_arrive, attempts) refl

abbrev silence : Window
silence = record { arrived = []; cancels_waiting = false; cancels_sleeping = false }

silence-eq : (w : Window) → Quiet (w ∷ []) → w ≡ silence
silence-eq w ((none_arrive, waits, sleeps), _) = rw (none_arrive, waits, sleeps) refl

attempts-silence :
    (n : ℕ) (v : Window) (vs : List Window)
    → attempts (nothing_yet n) (silence ∷ v ∷ vs) ≡ attempts (nothing_yet (n + 1)) (v ∷ vs)
unfolding attempts not_empty
attempts-silence n v vs = refl

attempts-Quiet :
    (n : ℕ) (w v : Window) (vs : List Window)
    → Quiet (w ∷ [])
    → attempts (nothing_yet n) (w ∷ v ∷ vs) ≡ attempts (nothing_yet (n + 1)) (v ∷ vs)
attempts-Quiet n w v vs quiet =
    ap (λ x. attempts (nothing_yet n) (x ∷ v ∷ vs)) (silence-eq w quiet) ∙ attempts-silence n v vs

attempts-first :
    (n : ℕ) (before : List Window) (w : Window) (after : List Window)
    → Quiet before
    → not_empty w.arrived ≡ true
    → (attempts (nothing_yet n) (before ++ w ∷ after)).pending_entries ≡ w.arrived
attempts-first n [] w after quiet some_arrive = attempts-hears n w after some_arrive
attempts-first n (b ∷ []) w after quiet some_arrive =
    ap (λ s. s.pending_entries) (attempts-Quiet n b w after (quiet.0, tt))
    ∙ attempts-hears (n + 1) w after some_arrive
attempts-first n (b ∷ c ∷ bs) w after quiet some_arrive =
    ap (λ s. s.pending_entries) (attempts-Quiet n b c (bs ++ w ∷ after) (quiet.0, tt))
    ∙ attempts-first (n + 1) (c ∷ bs) w after quiet.1 some_arrive

Has-insert : (e x : LogEntry) (es : List LogEntry) → Has e (insert_entry x es) → (e ≡ x) ⊎ Has e es
unfolding insert_entry
Has-insert e x [] h = h
Has-insert e x (y ∷ es) h =
    elim (Has-if_cases e (leb x.id y.id) (x ∷ y ∷ es) (y ∷ insert_entry x es) h) [
      | inl first ↦ first
      | inr (inl here) ↦ inr (inl here)
      | inr (inr there) ↦ elim (Has-insert e x es there) [
        | inl here ↦ inl here
        | inr rest ↦ inr (inr rest)
      ]
    ]

Has-sort : (e : LogEntry) (es : List LogEntry) → Has e (sort_entries es) → Has e es
unfolding sort_entries
Has-sort e [] h = h
Has-sort e (x ∷ es) h = elim (Has-insert e x (sort_entries es) h) [
  | inl here ↦ inl here
  | inr there ↦ inr (Has-sort e es there)
]

Has-unique_from : (e last : LogEntry) (es : List LogEntry) → Has e (unique_from last es) → Has e es
unfolding unique_from
Has-unique_from e last [] h = h
Has-unique_from e last (x ∷ es) h =
    by_test (last.id == x.id) (Has-unique_from e last es) (Has-unique_from e x es) h
  where
    by_test :
        (b : Bool)
        → (Has e (unique_from last es) → Has e es)
        → (Has e (unique_from x es) → Has e es)
        → Has e (elim b [ true ↦ unique_from last es | false ↦ x ∷ unique_from x es ])
        → Has e (x ∷ es)
    by_test true skip keep there = inr (skip there)
    by_test false skip keep (inl here) = inl here
    by_test false skip keep (inr there) = inr (keep there)

Has-unique : (e : LogEntry) (es : List LogEntry) → Has e (unique_entries es) → Has e es
unfolding unique_entries
Has-unique e [] h = h
Has-unique e (x ∷ es) (inl here) = inl here
Has-unique e (x ∷ es) (inr there) = inr (Has-unique_from e x es there)

-- The ids rise strictly, so no log twice; they are those of the entries that arrived, and each entry is one of
-- those.
pub record IsListOf (arrived result : List LogEntry) : Type 0 where
  pub rising : IsRising result
  pub ids : (id : ℕ) → has_id result id ≡ has_id arrived id
  pub entries : (e : LogEntry) → Has e result → Has e arrived

listed-IsListOf : (es : List LogEntry) → IsListOf es (unique_entries (sort_entries es))
listed-IsListOf es = record {
  rising = IsRising-unique (sort_entries es) (FromId-sort es);
  ids = λ id. has_id_unique (sort_entries es) id ∙ has_id-sort es id;
  entries = λ e h. Has-sort e es (Has-unique e (sort_entries es) h);
}

-- Without a cancel before it, the first attempt in which entries arrive makes the list that `enumerateLogs` returns,
-- whatever the attempts after it would bring: the list has strictly rising ids, so no log twice, exactly the
-- ids that arrived in that attempt, in whatever order and however often, and no entry that did not arrive.
pub enumerate_logs_lem :
    (before : List Window) (w : Window) (after : List Window)
    → Quiet before
    → not_empty w.arrived ≡ true
    → IsListOf w.arrived (enumerate_logs false (before ++ w ∷ after)).0
unfolding enumerate_logs
enumerate_logs_lem before w after quiet some_arrive =
    rw (attempts-first 0 before w after quiet some_arrive) (listed-IsListOf w.arrived)
