-- ===== src/Database.antt =====
-- src/Database.cpp: the catalog of archived logs and the statistics. The two tables are lists in the
-- order of insertion, and a statement is what its SQL says: `INSERT OR REPLACE` deletes the row of
-- the same primary key, `LIMIT 1` takes the first match. A failing statement, which throws in the
-- source, is not modelled.
pub mod Catalog
mod Examples
use Prim.Native.String.{String}
use text.Mathlib.Text.{◌==◌ as str_eq}
use mavlink_companion_log_se.Base.{
  ℕ, ◌+◌, List, [], ◌∷◌, ◌++◌, Bool, true, false, ◌&&◌, ◌==◌, Option, none, some, if◌then◌else◌,
}
use mavlink_companion_log_se.Types.{Text, text_eq, Candidate}

pub record Row : Type 0 where
  pub sha256 : Text
  pub fc_log_id : ℕ
  pub fc_log_size : ℕ
  pub fc_log_time_utc : ℕ
  pub probe_sha256 : Text
  pub probe_bytes : ℕ
  pub archive_time : ℕ
  pub archive_duration_ms : ℕ
  pub filename : Text
  pub erased : Bool

pub record Stat : Type 0 where
  pub key : String
  pub value : ℕ

pub record Database : Type 0 where
  pub archived_logs : List Row
  pub statistics : List Stat

abbrev pub empty_database : Database
empty_database = record { archived_logs = []; statistics = [] }

unfoldable pub find_row : List Row → ℕ → ℕ → Option Row
find_row [] id size = none
find_row (r ∷ rs) id size =
    if r.fc_log_id == id && r.fc_log_size == size then some r else find_row rs id size

unfoldable pub find_candidate : Database → ℕ → ℕ → Option Candidate
unfolding find_row
find_candidate db id size = elim (find_row db.archived_logs id size) [
  | none ↦ none
  | some r ↦ some (record {
    sha256 = r.sha256;
    probe_sha256 = r.probe_sha256;
    probe_bytes = r.probe_bytes;
    filename = r.filename;
  })
]

unfoldable pub has_archived : Database → ℕ → ℕ → Bool
unfolding find_candidate
has_archived db id size = elim (find_candidate db id size) [ none ↦ false | some c ↦ true ]

unfoldable pub delete_key : List Row → Text → List Row
delete_key [] sha256 = []
delete_key (r ∷ rs) sha256 =
    if text_eq r.sha256 sha256 then delete_key rs sha256 else r ∷ delete_key rs sha256

-- The row is given whole; `erased` is 0 in the statement.
unfoldable pub insert_archived_log : Database → Row → Database
unfolding delete_key
insert_archived_log db r = record db {
  archived_logs = delete_key db.archived_logs r.sha256 ++ record r { erased = false } ∷ [];
}

unfoldable pub erase_rows : List Row → List Row
erase_rows [] = []
erase_rows (r ∷ rs) = record r { erased = true } ∷ erase_rows rs

unfoldable pub mark_all_erased : Database → Database
unfolding erase_rows
mark_all_erased db = record db { archived_logs = erase_rows db.archived_logs }

pub lookup_stat : List Stat → String → ℕ
lookup_stat [] key = 0
lookup_stat (s ∷ ss) key = if str_eq s.key key then s.value else lookup_stat ss key

unfoldable pub get_stat : Database → String → ℕ
unfolding lookup_stat
get_stat db key = lookup_stat db.statistics key

pub replace_stat : List Stat → String → ℕ → List Stat
replace_stat [] key value = record { key = key; value = value } ∷ []
replace_stat (s ∷ ss) key value =
    if str_eq s.key key
    then record { key = key; value = value } ∷ ss
    else s ∷ replace_stat ss key value

unfoldable pub set_stat : Database → String → ℕ → Database
unfolding replace_stat
set_stat db key value = record db { statistics = replace_stat db.statistics key value }

unfoldable pub increment_stat : Database → String → ℕ → Database
unfolding get_stat set_stat
increment_stat db key delta = set_stat db key (get_stat db key + delta)
