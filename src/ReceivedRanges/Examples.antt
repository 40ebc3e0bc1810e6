-- ===== src/ReceivedRanges/Examples.antt =====
-- The program's own test of the intervals, and the theorems at its data.
use mavlink_companion_log_se.Base.{
  ℕ, ◌≡◌, refl, List, [], ◌∷◌, true, ltb, not, ◌&&◌, ◌||◌, leb, arith, ◌+◌, ◌<◌, ◌↔◌,
}
use mavlink_companion_log_se.ReceivedRanges.{
  Span, add, complete, gaps, bytes_received, covers, IsMerged,
}
use mavlink_companion_log_se.ReceivedRanges.Merge.{add-IsMerged, covers-add}
use mavlink_companion_log_se.ReceivedRanges.Gaps.{asked, asked-gaps, complete_iff}

abbrev span : ℕ → ℕ → Span
span a b = record { first = a; second = b }

abbrev partly : List Span
partly = span 0 720 ∷ span 810 900 ∷ []

adds_run : add (add (add [] 0 360) 360 360) 810 90 ≡ partly
unfolding add
adds_run = refl

gaps_run : gaps partly 900 ≡ span 720 90 ∷ []
unfolding gaps
gaps_run = refl

fills_run : (complete (add partly 720 90) 900 ≡ true) × (bytes_received (add partly 720 90) ≡ 900)
unfolding add complete bytes_received
fills_run = (refl, refl)

add-IsMerged_example : IsMerged (add partly 700 150)
add-IsMerged_example = add-IsMerged partly 700 150 (omega arith) (omega arith)

covers-add_example :
    covers (add partly 720 90) 800 ≡ (covers partly 800 || (leb 720 800 && ltb 800 (720 + 90)))
covers-add_example = covers-add partly 720 90 800 (omega arith) (omega arith)

asked-gaps_example : asked (gaps partly 900) 730 ≡ (ltb 730 900 && not (covers partly 730))
asked-gaps_example = asked-gaps partly 900 730 (omega arith) (omega arith)

complete_iff_example : (complete partly 900 ≡ true) ↔ ((b : ℕ) → b < 900 → covers partly b ≡ true)
complete_iff_example = complete_iff partly 900 (omega arith) (omega arith)
