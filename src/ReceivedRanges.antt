-- ===== src/ReceivedRanges.antt =====
-- src/ReceivedRanges.cpp: the received byte intervals of a download, kept sorted and merged.
-- `std::sort` on pairs is an insertion sort by the lexicographic order, which on a total order is
-- the same function.
pub mod Merge
pub mod Bytes
pub mod Gaps
mod Examples
use mavlink_companion_log_se.Base.{
  ℕ, ◌+◌, ◌-◌, ◌%◌, ◌^◌, ◌≤◌, ◌<◌, max, List, [], ◌∷◌, ◌++◌, Bool, true, false, ◌&&◌, ◌||◌, ltb,
  leb, ◌==◌, if◌then◌else◌,
}
use mavlink_companion_log_se.Base.Bits.{u32}

-- One `std::pair`: an interval from `first` up to and without `second`, or the offset and the
-- length of a gap.
pub record Span : Type 0 where
  pub first : ℕ
  pub second : ℕ

pub span_le : Span → Span → Bool
span_le a b = ltb a.first b.first || (a.first == b.first && leb a.second b.second)

pub insert_span : Span → List Span → List Span
insert_span x [] = x ∷ []
insert_span x (y ∷ ys) = if span_le x y then x ∷ y ∷ ys else y ∷ insert_span x ys

pub sort_spans : List Span → List Span
sort_spans [] = []
sort_spans (x ∷ xs) = insert_span x (sort_spans xs)

-- The loop of `merge`, `last` being the back of `merged`.
pub merge_from : Span → List Span → List Span
merge_from last [] = last ∷ []
merge_from last (r ∷ rs) = elim (leb r.first last.second) [
  | true ↦ merge_from (record { first = last.first; second = max last.second r.second }) rs
  | false ↦ last ∷ merge_from r rs
]

pub merge_sorted : List Span → List Span
merge_sorted [] = []
merge_sorted (r ∷ rs) = merge_from r rs

unfoldable pub merge : List Span → List Span
unfolding merge_sorted merge_from sort_spans insert_span span_le
merge ranges = merge_sorted (sort_spans ranges)

unfoldable pub add : List Span → ℕ → ℕ → List Span
unfolding merge
add ranges offset count =
    if count == 0
    then ranges
    else merge (ranges ++ record { first = offset; second = u32 (offset + count) } ∷ [])

pub starts_whole : List Span → ℕ → Bool
starts_whole [] total = false
starts_whole (r ∷ []) total = r.first == 0 && leb total r.second
starts_whole (r ∷ _ ∷ _) total = false

unfoldable pub complete : List Span → ℕ → Bool
unfolding starts_whole
complete ranges total = total == 0 || starts_whole ranges total

pub gaps_from : ℕ → List Span → ℕ → List Span
gaps_from cursor [] total =
    if ltb cursor total then record { first = cursor; second = total - cursor } ∷ [] else []
gaps_from cursor (r ∷ rs) total =
    let rest = gaps_from (max cursor r.second) rs total in
    if ltb cursor r.first then record { first = cursor; second = r.first - cursor } ∷ rest else rest

unfoldable pub gaps : List Span → ℕ → List Span
unfolding gaps_from
gaps ranges total = gaps_from 0 ranges total

pub bytes_from : ℕ → List Span → ℕ
bytes_from total [] = total
bytes_from total (r ∷ rs) = bytes_from (u32 (total + (r.second + 2 ^ 32 - r.first) % 2 ^ 32)) rs

unfoldable pub bytes_received : List Span → ℕ
unfolding bytes_from
bytes_received ranges = bytes_from 0 ranges

-- The bytes that intervals cover.
abbrev pub in_span : Span → ℕ → Bool
in_span r x = leb r.first x && ltb x r.second

pub covers : List Span → ℕ → Bool
covers [] x = false
covers (r ∷ rs) x = in_span r x || covers rs x

-- Sorted, none empty, and no two of them adjacent.
abbrev pub Above : ℕ → List Span → Type 0
Above b [] = Unit {0}
Above b (r ∷ rs) = (b < r.first) × (r.first < r.second) × Above r.second rs

abbrev pub IsMerged : List Span → Type 0
IsMerged [] = Unit {0}
IsMerged (r ∷ rs) = (r.first < r.second) × Above r.second rs

-- No interval reaches beyond `n`.
abbrev pub Within : ℕ → List Span → Type 0
Within n [] = Unit {0}
Within n (r ∷ rs) = (r.second ≤ n) × Within n rs
