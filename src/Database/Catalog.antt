-- ===== src/Database/Catalog.antt =====
-- Lookups after insertions, and the statistics as a map.
use Prim.Native.String.{String}
use text.Mathlib.Text.{◌==◌ as str_eq}
use text.Mathlib.TextEquality.{eq_iff}
use mavlink_companion_log_se.Base.{
  ℕ, ◌+◌, ◌≡◌, refl, sym, List, [], ◌∷◌, ◌++◌, Bool, true, false, ◌&&◌, ◌||◌, ◌==◌, none, some,
  if◌then◌else◌, arith, ◌⊎◌, inl, inr, Bool-cases,
}
use mavlink_companion_log_se.Types.{Text, text_eq}
use mavlink_companion_log_se.Database.{
  Row, Stat, Database, find_row, find_candidate, has_archived, delete_key, insert_archived_log,
  erase_rows, mark_all_erased, lookup_stat, replace_stat, get_stat, set_stat, increment_stat,
}

-- A row is there for this id and size.
pub has_row : List Row → ℕ → ℕ → Bool
has_row [] id size = false
has_row (r ∷ rs) id size = (r.fc_log_id == id && r.fc_log_size == size) || has_row rs id size

find_row-cases :
    (rs : List Row) (id size : ℕ)
    → ((find_row rs id size ≡ none) × (has_row rs id size ≡ false))
      ⊎ ((r : Row) × (find_row rs id size ≡ some r) × (has_row rs id size ≡ true))
unfolding find_row has_row
find_row-cases [] id size = inl (refl, refl)
find_row-cases (r ∷ rs) id size = elim (Bool-cases (r.fc_log_id == id && r.fc_log_size == size)) [
  | inl hit ↦ inr (r, ground arith, ground arith)
  | inr miss ↦ elim (find_row-cases rs id size) [
    | inl (f, h) ↦ inl (ground arith, ground arith)
    | inr (x, f, h) ↦ inr (x, ground arith, ground arith)
  ]
]

pub has_archived-row :
    (db : Database) (id size : ℕ) → has_archived db id size ≡ has_row db.archived_logs id size
unfolding has_archived find_candidate
has_archived-row db id size = elim (find_row-cases db.archived_logs id size) [
  | inl (f, h) ↦ rw (f, has_archived, find_candidate) (sym h)
  | inr (r, f, h) ↦ rw (f, has_archived, find_candidate) (sym h)
]

-- Every row under the key `sha256` belongs to the log with this id and size.
abbrev pub KeyIs : List Row → Text → ℕ → ℕ → Type 0
KeyIs [] sha256 id size = Unit {0}
KeyIs (r ∷ rs) sha256 id size =
    ((text_eq r.sha256 sha256 ≡ false) ⊎ ((r.fc_log_id ≡ id) × (r.fc_log_size ≡ size)))
    × KeyIs rs sha256 id size

has_row-delete_key :
    (rs : List Row) (sha256 : Text) (i s id size : ℕ)
    → KeyIs rs sha256 i s
    → (has_row (delete_key rs sha256) id size || (i == id && s == size))
      ≡ (has_row rs id size || (i == id && s == size))
unfolding has_row delete_key
has_row-delete_key [] sha256 i s id size k = refl
has_row-delete_key (r ∷ rs) sha256 i s id size k =
    ground (arith, has_row-delete_key rs sha256 i s id size k.1)

has_row-append :
    (xs ys : List Row) (id size : ℕ)
    → has_row (xs ++ ys) id size ≡ (has_row xs id size || has_row ys id size)
unfolding has_row
has_row-append [] ys id size = refl
has_row-append (x ∷ xs) ys id size = ground (arith, has_row-append xs ys id size)

-- After an insertion a log has a row exactly if it had one or is the one inserted, provided that
-- the rows replaced under the same hash are of the inserted log.
pub has_archived-insert :
    (db : Database) (r : Row) (id size : ℕ)
    → KeyIs db.archived_logs r.sha256 r.fc_log_id r.fc_log_size
    → has_archived (insert_archived_log db r) id size
      ≡ (has_archived db id size || (r.fc_log_id == id && r.fc_log_size == size))
unfolding insert_archived_log has_row
has_archived-insert db r id size k = ground (
  arith,
  has_archived-row db id size,
  has_archived-row (insert_archived_log db r) id size,
  has_row-append (delete_key db.archived_logs r.sha256) (record r { erased = false } ∷ []) id size,
  has_row-delete_key db.archived_logs r.sha256 r.fc_log_id r.fc_log_size id size k,
)

lookup-replace :
    (ss : List Stat) (k j : String) (v : ℕ)
    → lookup_stat (replace_stat ss k v) j ≡ (if str_eq k j then v else lookup_stat ss j)
unfolding lookup_stat replace_stat
lookup-replace [] k j v = refl
lookup-replace (s ∷ ss) k j v =
    ground (arith, eq_iff k j, eq_iff s.key k, eq_iff s.key j, lookup-replace ss k j v)

-- The statistics are a map: after an increment by `delta` the key's value has grown by it, and every
-- other key has the value that it had. A key that was never set counts as 0.
pub get-increment_stat :
    (db : Database) (k j : String) (delta : ℕ)
    → get_stat (increment_stat db k delta) j
      ≡ (if str_eq k j then get_stat db k + delta else get_stat db j)
unfolding increment_stat get_stat set_stat
get-increment_stat db k j delta = lookup-replace db.statistics k j _

has_row-erase : (rs : List Row) (id size : ℕ) → has_row (erase_rows rs) id size ≡ has_row rs id size
unfolding has_row erase_rows
has_row-erase [] id size = refl
has_row-erase (r ∷ rs) id size = ground (arith, has_row-erase rs id size)

-- Erasing the flight controller forgets nothing: the catalog still knows every log.
pub has_archived-mark_all_erased :
    (db : Database) (id size : ℕ)
    → has_archived (mark_all_erased db) id size ≡ has_archived db id size
unfolding mark_all_erased
has_archived-mark_all_erased db id size = ground (
  arith,
  has_archived-row db id size,
  has_archived-row (mark_all_erased db) id size,
  has_row-erase db.archived_logs id size,
)
