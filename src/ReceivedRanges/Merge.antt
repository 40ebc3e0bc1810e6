-- ===== src/ReceivedRanges/Merge.antt =====
-- `add` keeps the intervals merged, and covers what was covered and the new bytes.
use mavlink_companion_log_se.Base.{
  ℕ, ◌+◌, ◌%◌, ◌^◌, ◌≤◌, ◌<◌, ◌≡◌, refl, List, [], ◌∷◌, ◌++◌, ◌&&◌, ◌||◌, max, inl, inr, ◌∙◌, arith,
  ltb, leb, ◌==◌, Bool-cases,
}
use mavlink_companion_log_se.ReceivedRanges.{
  Span, span_le, insert_span, sort_spans, merge_from, merge_sorted, merge, add, in_span, covers,
  IsMerged, Above,
}

-- None empty, in the order of their starts from `lo` on.
abbrev Ordered : ℕ → List Span → Type 0
Ordered lo [] = Unit {0}
Ordered lo (r ∷ rs) = (lo ≤ r.first) × (r.first < r.second) × Ordered r.first rs

abbrev Filled : List Span → Type 0
Filled [] = Unit {0}
Filled (r ∷ rs) = (r.first < r.second) × Filled rs

Ordered-mono : (m n : ℕ) (rs : List Span) → m ≤ n → Ordered n rs → Ordered m rs
Ordered-mono m n [] h o = tt
Ordered-mono m n (r ∷ rs) h o = (omega arith, o.1, o.2)

insert_span-Ordered :
    (lo : ℕ) (x : Span) (rs : List Span)
    → lo ≤ x.first
    → x.first < x.second
    → Ordered lo rs
    → Ordered lo (insert_span x rs)
unfolding insert_span span_le
insert_span-Ordered lo x [] a b o = (a, b, tt)
insert_span-Ordered lo x (r ∷ rs) a b o = ground (arith, insert_span-Ordered r.first x rs)

sort_spans-Ordered : (rs : List Span) → Filled rs → Ordered 0 (sort_spans rs)
unfolding sort_spans
sort_spans-Ordered [] f = tt
sort_spans-Ordered (r ∷ rs) f =
    insert_span-Ordered 0 r (sort_spans rs) (omega arith) f.0 (sort_spans-Ordered rs f.1)

covers-insert_span :
    (x : Span) (rs : List Span) (b : ℕ) → covers (insert_span x rs) b ≡ (in_span x b || covers rs b)
unfolding covers insert_span
covers-insert_span x [] b = refl
covers-insert_span x (r ∷ rs) b = ground (arith, covers-insert_span x rs b)

covers-sort_spans : (rs : List Span) (b : ℕ) → covers (sort_spans rs) b ≡ covers rs b
unfolding covers sort_spans
covers-sort_spans [] b = refl
covers-sort_spans (r ∷ rs) b =
    ground (arith, covers-insert_span r (sort_spans rs) b, covers-sort_spans rs b)

covers-append : (xs ys : List Span) (b : ℕ) → covers (xs ++ ys) b ≡ (covers xs b || covers ys b)
unfolding covers
covers-append [] ys b = refl
covers-append (x ∷ xs) ys b = ground (arith, covers-append xs ys b)

covers-merge_from :
    (last : Span) (rs : List Span) (b : ℕ)
    → last.first < last.second
    → Ordered last.first rs
    → covers (merge_from last rs) b ≡ (in_span last b || covers rs b)
unfolding covers merge_from
covers-merge_from last [] b h o = refl
covers-merge_from last (r ∷ rs) b h o = elim (Bool-cases (leb r.first last.second)) [
  | inl joins ↦ ground (
    arith,
    covers-merge_from (record { first = last.first; second = max last.second r.second }) rs b
        (omega arith) (Ordered-mono last.first r.first rs o.0 o.2),
  )
  | inr apart ↦ ground (arith, covers-merge_from r rs b o.1 o.2)
]

-- Each result starts where `last` does, or beyond a point that `last` has passed.
merge_from-IsMerged :
    (last : Span) (rs : List Span) (below : ℕ)
    → below < last.first
    → last.first < last.second
    → Ordered last.first rs
    → Above below (merge_from last rs)
unfolding merge_from
merge_from-IsMerged last [] below a h o = (a, h, tt)
merge_from-IsMerged last (r ∷ rs) below a h o = elim (Bool-cases (leb r.first last.second)) [
  | inl joins ↦ ground (
    arith,
    merge_from-IsMerged (record { first = last.first; second = max last.second r.second }) rs below
        a (omega arith) (Ordered-mono last.first r.first rs o.0 o.2),
  )
  | inr apart ↦ ground (arith, merge_from-IsMerged r rs last.second (ground arith) o.1 o.2)
]

merge_from-IsMerged_lem :
    (last : Span) (rs : List Span)
    → last.first < last.second
    → Ordered last.first rs
    → IsMerged (merge_from last rs)
unfolding merge_from
merge_from-IsMerged_lem last [] h o = (h, tt)
merge_from-IsMerged_lem last (r ∷ rs) h o = elim (Bool-cases (leb r.first last.second)) [
  | inl joins ↦ ground (
    arith,
    merge_from-IsMerged_lem (record { first = last.first; second = max last.second r.second }) rs
        (omega arith) (Ordered-mono last.first r.first rs o.0 o.2),
  )
  | inr apart ↦ ground (arith, merge_from-IsMerged r rs last.second (ground arith) o.1 o.2)
]

merge_sorted-IsMerged : (rs : List Span) → Ordered 0 rs → IsMerged (merge_sorted rs)
unfolding merge_sorted
merge_sorted-IsMerged [] o = tt
merge_sorted-IsMerged (r ∷ rs) o = merge_from-IsMerged_lem r rs o.1 o.2

covers-merge_sorted :
    (rs : List Span) (b : ℕ) → Ordered 0 rs → covers (merge_sorted rs) b ≡ covers rs b
unfolding merge_sorted covers
covers-merge_sorted [] b o = refl
covers-merge_sorted (r ∷ rs) b o = covers-merge_from r rs b o.1 o.2

Above-Filled : (b : ℕ) (rs : List Span) → Above b rs → Filled rs
Above-Filled b [] a = tt
Above-Filled b (r ∷ rs) a = (a.1, Above-Filled r.second rs a.2)

IsMerged-Filled : (rs : List Span) → IsMerged rs → Filled rs
IsMerged-Filled [] m = tt
IsMerged-Filled (r ∷ rs) m = (m.0, Above-Filled r.second rs m.1)

Filled-append : (rs : List Span) (x : Span) → Filled rs → x.first < x.second → Filled (rs ++ x ∷ [])
Filled-append [] x f h = (h, tt)
Filled-append (r ∷ rs) x f h = (f.0, Filled-append rs x f.1 h)

-- The new interval of `add`, which does not wrap.
module _ (rs : List Span) (offset count : ℕ) (m : IsMerged rs) (fits : offset + count < 2 ^ 32)
    (some_bytes : 0 < count) where
  abbrev added : Span
  added = record { first = offset; second = (offset + count) % 2 ^ 32 }

  sorted_with-Ordered : Ordered 0 (sort_spans (rs ++ added ∷ []))
  sorted_with-Ordered =
      sort_spans-Ordered (rs ++ added ∷ [])
        (Filled-append rs added (IsMerged-Filled rs m) (omega arith))

  merge-IsMerged : IsMerged (merge (rs ++ added ∷ []))
  unfolding merge
  merge-IsMerged = merge_sorted-IsMerged _ sorted_with-Ordered

  covers-merge :
      (b : ℕ)
      → covers (merge (rs ++ added ∷ [])) b
        ≡ (covers rs b || (leb offset b && ltb b (offset + count)))
  unfolding covers merge
  covers-merge b =
      covers-merge_sorted _ b sorted_with-Ordered
      ∙ covers-sort_spans (rs ++ added ∷ []) b
      ∙ covers-append rs (added ∷ []) b
      ∙ ground arith

-- `add` keeps the intervals sorted, non-empty and apart, whatever interval is added within the
-- 32-bit range: before, after, across or inside those that are there.
pub add-IsMerged :
    (rs : List Span) (offset count : ℕ)
    → IsMerged rs
    → offset + count < 2 ^ 32
    → IsMerged (add rs offset count)
unfolding add
add-IsMerged rs offset count m h = elim (Bool-cases (count == 0)) [
  | inl none ↦ rw none m
  | inr some_bytes ↦ rw some_bytes (merge-IsMerged rs offset count m h (ground arith))
]

-- After `add`, a byte is covered exactly if it was before or lies in the added interval, provided
-- that the interval ends within the 32-bit range.
pub covers-add :
    (rs : List Span) (offset count b : ℕ)
    → IsMerged rs
    → offset + count < 2 ^ 32
    → covers (add rs offset count) b ≡ (covers rs b || (leb offset b && ltb b (offset + count)))
unfolding add
covers-add rs offset count b m h = elim (Bool-cases (count == 0)) [
  | inl none ↦ rw none (ground arith)
  | inr some_bytes ↦ rw some_bytes (covers-merge rs offset count m h (ground arith) b)
]
