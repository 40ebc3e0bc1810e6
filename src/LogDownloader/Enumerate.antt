-- ===== src/LogDownloader/Enumerate.antt =====
-- src/LogDownloader.cpp: `enumerateLogs`. One request and its wait is a `Window` with what arrived in
-- it; the list of windows has one for each attempt. `std::sort` by id is a stable insertion sort; among
-- entries of one id the source leaves open which one `std::unique` meets first.
use mavlink_companion_log_se.Base.{
  ℕ, ◌+◌, ◌<◌, ◌≤◌, ◌≡◌, refl, List, [], ◌∷◌, ◌++◌, Bool, true, false, ◌||◌, ◌==◌, leb,
  if◌then◌else◌, arith,
}
use mavlink_companion_log_se.Types.{LogEntry}

pub record Window : Type 0 where
  pub arrived : List LogEntry
  pub cancels_waiting : Bool
  pub cancels_sleeping : Bool

pub record Enumeration : Type 0 where
  pub pending_entries : List LogEntry
  pub cancel_requested : Bool
  pub requests : ℕ

unfoldable pub not_empty : List LogEntry → Bool
not_empty [] = false
not_empty (e ∷ es) = true

-- The loop over the attempts.
unfoldable pub attempts : Enumeration → List Window → Enumeration
attempts s [] = s
attempts s (w ∷ ws) =
    let pending = s.pending_entries ++ w.arrived in
    let cancelled = s.cancel_requested || w.cancels_waiting in
    let asked : Enumeration = record {
      pending_entries = pending;
      cancel_requested = cancelled;
      requests = s.requests + 1;
    } in
    elim (not_empty pending || cancelled) [
      | true ↦ asked
      | false ↦ elim ws [
        | [] ↦ asked
        | _ ∷ _ ↦ elim w.cancels_sleeping [
          | true ↦ record asked { cancel_requested = true }
          | false ↦ attempts asked ws
        ]
      ]
    ]

unfoldable pub insert_entry : LogEntry → List LogEntry → List LogEntry
insert_entry e [] = e ∷ []
insert_entry e (x ∷ xs) = if leb e.id x.id then e ∷ x ∷ xs else x ∷ insert_entry e xs

unfoldable pub sort_entries : List LogEntry → List LogEntry
sort_entries [] = []
sort_entries (e ∷ es) = insert_entry e (sort_entries es)

-- `std::unique` from an entry that is kept.
unfoldable pub unique_from : LogEntry → List LogEntry → List LogEntry
unique_from last [] = []
unique_from last (e ∷ es) = elim (last.id == e.id) [
  | true ↦ unique_from last es
  | false ↦ e ∷ unique_from e es
]

unfoldable pub unique_entries : List LogEntry → List LogEntry
unique_entries [] = []
unique_entries (e ∷ es) = e ∷ unique_from e es

unfoldable pub enumerate_logs : Bool → List Window → List LogEntry × Bool
enumerate_logs cancel_requested windows =
    let s =
      attempts (record { pending_entries = []; cancel_requested = cancel_requested; requests = 0 })
        windows in
    (unique_entries (sort_entries s.pending_entries), s.cancel_requested)

pub has_id : List LogEntry → ℕ → Bool
has_id [] id = false
has_id (e ∷ es) id = e.id == id || has_id es id

-- Ids rise strictly from above `lo`.
abbrev pub Rising : ℕ → List LogEntry → Type 0
Rising lo [] = Unit {0}
Rising lo (e ∷ es) = (lo < e.id) × Rising e.id es

abbrev pub IsRising : List LogEntry → Type 0
IsRising [] = Unit {0}
IsRising (e ∷ es) = Rising e.id es

abbrev pub FromId : ℕ → List LogEntry → Type 0
FromId lo [] = Unit {0}
FromId lo (e ∷ es) = (lo ≤ e.id) × FromId e.id es

FromId-insert :
    (lo : ℕ) (e : LogEntry) (es : List LogEntry)
    → lo ≤ e.id
    → FromId lo es
    → FromId lo (insert_entry e es)
unfolding insert_entry
FromId-insert lo e [] h f = (h, tt)
FromId-insert lo e (x ∷ xs) h f = ground (arith, FromId-insert x.id e xs)

pub FromId-sort : (es : List LogEntry) → FromId 0 (sort_entries es)
unfolding sort_entries
FromId-sort [] = tt
FromId-sort (e ∷ es) = FromId-insert 0 e (sort_entries es) (omega arith) (FromId-sort es)

FromId-mono : (m n : ℕ) (es : List LogEntry) → m ≤ n → FromId n es → FromId m es
FromId-mono m n [] h f = tt
FromId-mono m n (e ∷ es) h f = (omega arith, f.1)

Rising-unique_from :
    (last : LogEntry) (es : List LogEntry)
    → FromId last.id es
    → Rising last.id (unique_from last es)
unfolding unique_from
Rising-unique_from last [] f = tt
Rising-unique_from last (e ∷ es) f =
    ground
      (arith, Rising-unique_from e es f.1, Rising-unique_from last es, FromId-mono last.id e.id es)

has_id-insert :
    (e : LogEntry) (es : List LogEntry) (id : ℕ)
    → has_id (insert_entry e es) id ≡ (e.id == id || has_id es id)
unfolding has_id insert_entry
has_id-insert e [] id = refl
has_id-insert e (x ∷ xs) id = ground (arith, has_id-insert e xs id)

pub has_id-sort : (es : List LogEntry) (id : ℕ) → has_id (sort_entries es) id ≡ has_id es id
unfolding has_id sort_entries
has_id-sort [] id = refl
has_id-sort (e ∷ es) id = ground (arith, has_id-insert e (sort_entries es) id, has_id-sort es id)

has_id-unique_from :
    (last : LogEntry) (es : List LogEntry) (id : ℕ)
    → (last.id == id || has_id (unique_from last es) id) ≡ (last.id == id || has_id es id)
unfolding has_id unique_from
has_id-unique_from last [] id = refl
has_id-unique_from last (e ∷ es) id =
    ground (arith, has_id-unique_from e es id, has_id-unique_from last es id)

pub IsRising-unique : (es : List LogEntry) → FromId 0 es → IsRising (unique_entries es)
unfolding unique_entries
IsRising-unique [] f = tt
IsRising-unique (e ∷ es) f = Rising-unique_from e es f.1

pub has_id_unique : (es : List LogEntry) (id : ℕ) → has_id (unique_entries es) id ≡ has_id es id
unfolding unique_entries has_id
has_id_unique [] id = refl
has_id_unique (e ∷ es) id = has_id-unique_from e es id
