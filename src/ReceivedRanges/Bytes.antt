-- ===== src/ReceivedRanges/Bytes.antt =====
-- `bytesReceived` counts the covered bytes.
use mavlink_companion_log_se.Base.{
  sym, ℕ, ◌+◌, ◌-◌, ◌%◌, ◌^◌, ◌≤◌, ◌<◌, ◌≡◌, List, [], ◌∷◌, true, false, min, arith, zero, suc,
}
use mavlink_companion_log_se.Base.Bits.{u32}
use mavlink_companion_log_se.ReceivedRanges.{
  Span, bytes_received, bytes_from, covers, in_span, IsMerged, Above, Within,
}
use mavlink_companion_log_se.ReceivedRanges.Gaps.{covers-Above}
use mavlink_companion_log_se.Base.Counting.{
  count_below, count_below-disjoint, count_below-none, count_below-le,
}

count_below-span :
    (n : ℕ) (r : Span) → r.first ≤ r.second → count_below n (in_span r) ≡ (min n r.second - r.first)
unfolding count_below
count_below-span zero r h = omega arith
count_below-span (suc n) r h = ground (arith, count_below-span n r h)

count_covers-nil : (n : ℕ) → count_below n (covers []) ≡ 0
unfolding covers
count_covers-nil n = count_below-none n

span-apart :
    (r : Span) (rs : List Span) (x : ℕ)
    → Above r.second rs
    → in_span r x ≡ true
    → covers rs x ≡ false
span-apart r rs x a h = covers-Above r.second x rs a (ground arith)

covers-cons :
    (r : Span) (rs : List Span) (n : ℕ)
    → Above r.second rs
    → r.first < r.second
    → r.second ≤ n
    → count_below n (covers (r ∷ rs)) ≡ (r.second - r.first) + count_below n (covers rs)
unfolding covers
covers-cons r rs n a h w = ground (
  arith,
  count_below-disjoint n (in_span r) (covers rs) (λ x. span-apart r rs x a),
  count_below-span n r,
)

bytes_from-count :
    (total n : ℕ) (rs : List Span) (lo : ℕ)
    → Above lo rs
    → Within n rs
    → total + count_below n (covers rs) ≤ n
    → n < 2 ^ 32
    → bytes_from total rs ≡ total + count_below n (covers rs)
unfolding bytes_from
bytes_from-count total n [] lo a w h k = omega (arith, count_covers-nil n)
bytes_from-count total n (r ∷ rs) lo a w h k = ground (
  arith,
  covers-cons r rs n a.2 a.1 w.0,
  bytes_from-count (total + (r.second - r.first)) n rs r.second a.2 w.1,
)

-- Over merged intervals within the first `n` bytes, and below 2 ^ 32, the 32-bit sum of the lengths
-- is the number of covered bytes.
pub bytes_received-count :
    (rs : List Span) (n : ℕ)
    → IsMerged rs
    → Within n rs
    → n < 2 ^ 32
    → bytes_received rs ≡ count_below n (covers rs)
unfolding bytes_received bytes_from
bytes_received-count [] n m w k = sym (count_covers-nil n)
bytes_received-count (r ∷ rs) n m w k = ground (
  arith,
  covers-cons r rs n m.1 m.0 w.0,
  count_below-le n (covers (r ∷ rs)),
  bytes_from-count (r.second - r.first) n rs r.second m.1 w.1,
)

-- Sorted intervals of which no byte is beyond `n` end by `n`.
covers-Within-Above :
    (b n : ℕ) (rs : List Span) → Above b rs → ((x : ℕ) → covers rs x ≡ true → x < n) → Within n rs
unfolding covers
covers-Within-Above b n [] above inside = tt
covers-Within-Above b n (r ∷ rs) above inside =
    let last : r.second - 1 < n = inside (r.second - 1) (ground (arith, above.0, above.1)) in
    (
      omega (arith, above.1),
      covers-Within-Above r.second n rs above.2 (λ x c. inside x (ground (arith, c))),
    )

bytes_from-le :
    (acc b n : ℕ) (rs : List Span)
    → n < 2 ^ 32
    → b ≤ n
    → Above b rs
    → Within n rs
    → bytes_from acc rs + b ≤ acc + n
unfolding bytes_from
bytes_from-le acc b n [] small le above within = omega arith
bytes_from-le acc b n (r ∷ rs) small le above within =
    let rest =
      bytes_from-le (u32 (acc + (r.second + 2 ^ 32 - r.first) % 2 ^ 32)) r.second n rs small
        within.0 above.2 within.1 in
    omega (arith, above.0, above.1)

-- The number of bytes received is at most `n` if no byte from `n` on is covered.
pub bytes_received-le :
    (rs : List Span) (n : ℕ)
    → IsMerged rs
    → ((x : ℕ) → covers rs x ≡ true → x < n)
    → n < 2 ^ 32
    → bytes_received rs ≤ n
unfolding bytes_received bytes_from covers
bytes_received-le [] n merged inside small = omega arith
bytes_received-le (r ∷ rs) n merged inside small =
    let last : r.second - 1 < n = inside (r.second - 1) (ground (arith, merged.0)) in
    let within = covers-Within-Above r.second n rs merged.1 (λ x c. inside x (ground (arith, c))) in
    let rest =
      bytes_from-le (u32 (0 + (r.second + 2 ^ 32 - r.first) % 2 ^ 32)) r.second n rs small
        (omega arith) merged.1 within in
    omega (arith, merged.0)
