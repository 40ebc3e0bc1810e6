-- ===== src/StreamDownload/Begins.antt =====
-- `requestMergedGaps` of src/StreamDownloadSession.cpp: at which chunk the request for a gap begins.
use mavlink_companion_log_se.Base.{
  ℕ, ◌+◌, ◌-◌, ◌%◌, ◌^◌, ◌≤◌, ◌<◌, ◌≡◌, ◌≢◌, ◌⊎◌, subst, sym, ap, ◌∙◌, map, List, [], ◌∷◌, ltb,
  if◌then◌else◌, arith, inl, inr,
}
use mavlink_companion_log_se.LogProtocol.{chunk_size, align_down_to_chunk}
use mavlink_companion_log_se.ReceivedRanges.{Span, gaps, IsMerged, Within}
use mavlink_companion_log_se.ReceivedRanges.Gaps.{AllGaps, gaps-AllGaps}
use mavlink_companion_log_se.StreamDownload.Requests.{
  request_start, request_merged_gaps, rest_of, request_start-bounds, request_merged_gaps-map,
}

-- No chunk begins in an interval.
abbrev pub NoneBegins : ℕ → ℕ → Type 0
NoneBegins from to = (y : ℕ) → from ≤ y → y < to → y % chunk_size ≢ 0

-- The request is for the gap from the first chunk that begins in it, or from its offset if none does, to its end.
pub record IsRest (gap r : Span) : Type 0 where
  pub inside : gap.first ≤ r.first
  pub some_bytes : 0 < r.second
  pub ends : r.first + r.second ≡ gap.first + gap.second
  pub begins :
      ((r.first % chunk_size ≡ 0) × NoneBegins gap.first r.first)
      ⊎ ((r.first ≡ gap.first) × NoneBegins gap.first (gap.first + gap.second))

-- The requests, one for each gap, in order.
abbrev pub AllRest : List Span → List Span → Type 0
AllRest [] [] = Unit {0}
AllRest [] (r ∷ rs) = ⊥
AllRest (gap ∷ gs) [] = ⊥
AllRest (gap ∷ gs) (r ∷ rs) = IsRest gap r × AllRest gs rs

-- The next chunk that begins at or after the offset of a gap.
abbrev next_chunk : Span → ℕ
next_chunk gap =
    let start = gap.first - gap.first % chunk_size in
    if ltb start gap.first then start + chunk_size else start

next_chunk-near :
    (gap : Span)
    → (next_chunk gap % chunk_size ≡ 0)
      × (gap.first ≤ next_chunk gap)
      × (next_chunk gap < gap.first + chunk_size)
next_chunk-near gap = (ground arith, ground arith, ground arith)

request_start-cases :
    (gap : Span)
    → gap.first + gap.second + chunk_size < 2 ^ 32
    → (request_start gap ≡ next_chunk gap)
      ⊎ ((request_start gap ≡ gap.first) × (gap.first + gap.second ≤ next_chunk gap))
unfolding request_start align_down_to_chunk
request_start-cases gap small = ground arith

none_before :
    (from to n : ℕ) → n % chunk_size ≡ 0 → n < from + chunk_size → to ≤ n → NoneBegins from to
none_before from to n aligned near le y a b e = omega arith

request_start-begins :
    (gap : Span)
    → 0 < gap.second
    → gap.first + gap.second + chunk_size < 2 ^ 32
    → ((request_start gap % chunk_size ≡ 0) × NoneBegins gap.first (request_start gap))
      ⊎ ((request_start gap ≡ gap.first) × NoneBegins gap.first (gap.first + gap.second))
request_start-begins gap some_bytes small =
    let (aligned, from, near) = next_chunk-near gap in
    elim (request_start-cases gap small) [
      | inl e ↦ inl (
        ap (λ n. n % chunk_size) e ∙ aligned,
        none_before gap.first (request_start gap) (next_chunk gap) aligned near (omega (arith, e)),
      )
      | inr (e, past) ↦
          inr (e, none_before gap.first (gap.first + gap.second) (next_chunk gap) aligned near past)
    ]

rest_of-IsRest :
    (gap : Span)
    → 0 < gap.second
    → gap.first + gap.second + chunk_size < 2 ^ 32
    → IsRest gap (rest_of gap)
rest_of-IsRest gap some_bytes small =
    let (from, inside, near) = request_start-bounds gap some_bytes small in
    record {
      inside = from;
      some_bytes = omega arith;
      ends = omega arith;
      begins = request_start-begins gap some_bytes small;
    }

map-AllRest :
    (total : ℕ) (gs : List Span)
    → total + chunk_size < 2 ^ 32
    → AllGaps total gs
    → AllRest gs (map rest_of gs)
map-AllRest total [] small all = tt
map-AllRest total (gap ∷ gs) small all =
    (rest_of-IsRest gap all.0 (omega (arith, all.1)), map-AllRest total gs small all.2)

-- Each gap is asked for by exactly one request, from the first chunk that begins in the gap, or from its
-- offset if none does, to its end. The received intervals are sorted, apart and within the total, which is more
-- than a chunk below 2 ^ 32.
pub request_merged_gaps_lem :
    (rs : List Span) (total : ℕ)
    → IsMerged rs
    → Within total rs
    → total + chunk_size < 2 ^ 32
    → AllRest (gaps rs total) (request_merged_gaps rs total)
request_merged_gaps_lem rs total m w small =
    subst (λ r. AllRest (gaps rs total) r) (sym (request_merged_gaps-map rs total m w small))
      (map-AllRest total (gaps rs total) small (gaps-AllGaps rs total m w))
