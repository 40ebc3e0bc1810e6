-- ===== src/StreamDownload/Requests.antt =====
-- src/StreamDownloadSession.cpp: `requestMergedGaps`, as the list of requests that it sends, each an offset
-- and a count. The loops run on fuel; a step adds at least one byte, so that the bytes to ask for and
-- one more are enough.
use mavlink_companion_log_se.Base.{
  ℕ, zero, suc, ◌+◌, ◌-◌, ◌^◌, ◌≤◌, ◌<◌, ◌≡◌, refl, sym, ap, ◌∙◌, min, map, List, [], ◌∷◌, ◌++◌,
  true, false, ◌&&◌, not, ◌==◌, ltb, leb, if◌then◌else◌, arith, Bool-cases, inl, inr,
}
use mavlink_companion_log_se.Base.Bits.{u32}
use mavlink_companion_log_se.LogProtocol.{chunk_size, log_stream_request_count, align_down_to_chunk}
use mavlink_companion_log_se.ReceivedRanges.{Span, gaps, covers, IsMerged, Within}
use mavlink_companion_log_se.ReceivedRanges.Gaps.{asked, asked-gaps, AllGaps, gaps-AllGaps}
use mavlink_companion_log_se.StreamDownload.Taken.{pick-false}

unfoldable pub coalesce : ℕ → ℕ → ℕ → ℕ → ℕ
coalesce zero start end' n = n
coalesce (suc fuel) start end' n = elim (ltb (u32 (start + n)) end') [
  | true ↦ coalesce fuel start end' (u32 (n + chunk_size))
  | false ↦ n
]

unfoldable pub request_count : ℕ → ℕ → ℕ
request_count start end' =
    min (min (end' - start) (coalesce (suc (end' - start)) start end' chunk_size))
      log_stream_request_count

unfoldable pub requests_from : ℕ → ℕ → ℕ → List Span
requests_from zero start end' = []
requests_from (suc fuel) start end' = elim (ltb start end') [
  | true ↦
      let count = request_count start end' in
      record { first = start; second = count } ∷ requests_from fuel (u32 (start + count)) end'
  | false ↦ []
]

-- Where the requests for a gap begin: at its first chunk, or at its offset if no chunk begins in it.
unfoldable pub request_start : Span → ℕ
request_start gap =
    let start = align_down_to_chunk gap.first in
    let next = if ltb start gap.first then u32 (start + chunk_size) else start in
    if leb (u32 (gap.first + gap.second)) next then gap.first else next

unfoldable pub request_gap : Span → List Span
request_gap gap =
    if gap.second == 0
    then []
    else requests_from (suc gap.second) (request_start gap) (u32 (gap.first + gap.second))

unfoldable pub request_gaps : List Span → List Span
request_gaps [] = []
request_gaps (gap ∷ rest) = request_gap gap ++ request_gaps rest

unfoldable pub request_merged_gaps : List Span → ℕ → List Span
request_merged_gaps ranges total = request_gaps (gaps ranges total)

coalesce_reaches :
    (fuel start end' n : ℕ)
    → end' + chunk_size < 2 ^ 32
    → n ≤ (end' - start) + chunk_size
    → start < end'
    → end' ≤ start + n + fuel
    → end' ≤ start + coalesce fuel start end' n
unfolding coalesce
coalesce_reaches zero start end' n small bound lt enough = omega arith
coalesce_reaches (suc fuel) start end' n small bound lt enough =
    elim (Bool-cases (ltb (u32 (start + n)) end')) [
      | inl more ↦
          let below : start + n < end' = ground arith in
          let same : u32 (n + chunk_size) ≡ n + chunk_size = omega arith in
          rw (more, same, coalesce)
            (coalesce_reaches fuel start end' (n + chunk_size) small (omega arith) lt (omega arith))
      | inr done ↦ let reached : end' ≤ start + n = ground arith in rw (done, coalesce) reached
    ]

request_count-whole :
    (start end' : ℕ)
    → end' + chunk_size < 2 ^ 32
    → start < end'
    → request_count start end' ≡ end' - start
unfolding request_count
request_count-whole start end' small lt =
    let reaches =
      coalesce_reaches (suc (end' - start)) start end' chunk_size small (omega arith) lt
        (omega arith) in
    omega arith

pub request_start-bounds :
    (gap : Span)
    → 0 < gap.second
    → gap.first + gap.second + chunk_size < 2 ^ 32
    → (gap.first ≤ request_start gap)
      × (request_start gap < gap.first + gap.second)
      × (request_start gap < gap.first + chunk_size)
unfolding request_start align_down_to_chunk
request_start-bounds gap some_bytes small = (ground arith, ground arith, ground arith)

-- The one request of a gap.
abbrev pub rest_of : Span → Span
rest_of gap = record {
  first = request_start gap;
  second = gap.first + gap.second - request_start gap;
}

requests_from-end : (fuel end' : ℕ) → requests_from fuel end' end' ≡ []
unfolding requests_from
requests_from-end zero end' = refl
requests_from-end (suc fuel) end' =
    let e : ltb end' end' ≡ false = ground arith in rw (e, requests_from) refl

requests_from-step :
    (fuel start end' : ℕ)
    → ltb start end' ≡ true
    → requests_from (suc fuel) start end'
      ≡ record { first = start; second = request_count start end' }
        ∷ requests_from fuel (u32 (start + request_count start end')) end'
unfolding requests_from
requests_from-step fuel start end' e = rw (e, requests_from) refl

request_gap-single :
    (gap : Span)
    → 0 < gap.second
    → gap.first + gap.second + chunk_size < 2 ^ 32
    → request_gap gap ≡ rest_of gap ∷ []
unfolding request_gap
request_gap-single gap some_bytes small =
    let (from, inside, near) = request_start-bounds gap some_bytes small in
    let start = request_start gap in
    let end' = gap.first + gap.second in
    let ends : u32 end' ≡ end' = omega arith in
    let lt : ltb start end' ≡ true = ground arith in
    let whole = request_count-whole start end' small inside in
    let meets : u32 (start + (end' - start)) ≡ end' = omega arith in
    let here : (gap.second == 0) ≡ false = ground arith in
    pick-false (gap.second == 0) _ _ here
    ∙ ap (requests_from (suc gap.second) start) ends
    ∙ requests_from-step gap.second start end' lt
    ∙ ap
        (λ n.
          record { first = start; second = n } ∷ requests_from gap.second (u32 (start + n)) end')
        whole
    ∙ ap (λ e. rest_of gap ∷ requests_from gap.second e end') meets
    ∙ ap (λ r. rest_of gap ∷ r) (requests_from-end gap.second end')

request_gaps-map :
    (total : ℕ) (gs : List Span)
    → total + chunk_size < 2 ^ 32
    → AllGaps total gs
    → request_gaps gs ≡ map rest_of gs
unfolding request_gaps
request_gaps-map total [] small all = refl
request_gaps-map total (gap ∷ gs) small all =
    ap (λ r. r ++ request_gaps gs) (request_gap-single gap all.0 (omega (arith, all.1)))
    ∙ ap (λ r. rest_of gap ∷ r) (request_gaps-map total gs small all.2)

pub request_merged_gaps-map :
    (rs : List Span) (total : ℕ)
    → IsMerged rs
    → Within total rs
    → total + chunk_size < 2 ^ 32
    → request_merged_gaps rs total ≡ map rest_of (gaps rs total)
unfolding request_merged_gaps
request_merged_gaps-map rs total m w small =
    request_gaps-map total (gaps rs total) small (gaps-AllGaps rs total m w)

asked-map :
    (total b : ℕ) (gs : List Span)
    → total + chunk_size < 2 ^ 32
    → AllGaps total gs
    → asked (map rest_of gs) b ≡ true
    → asked gs b ≡ true
unfolding asked
asked-map total b [] small all h = h
asked-map total b (gap ∷ gs) small all h =
    ground (
      arith,
      asked-map total b gs small all.2,
      request_start-bounds gap all.0 (omega (arith, all.1)),
    )

-- A byte that is asked for again lies below the total and has not been received.
pub request_merged_gaps_missing :
    (rs : List Span) (total b : ℕ)
    → IsMerged rs
    → Within total rs
    → total + chunk_size < 2 ^ 32
    → asked (request_merged_gaps rs total) b ≡ true
    → (b < total) × (covers rs b ≡ false)
request_merged_gaps_missing rs total b m w small h =
    let in_gap =
      asked-map total b (gaps rs total) small (gaps-AllGaps rs total m w)
        (ap (λ r. asked r b) (sym (request_merged_gaps-map rs total m w small)) ∙ h) in
    let missing : (ltb b total && not (covers rs b)) ≡ true =
      sym (asked-gaps rs total b m w) ∙ in_gap in
    (ground arith, ground arith)
