-- ===== src/ReceivedRanges/Gaps.antt =====
-- `complete` and `gaps` against the bytes that are covered.
use mavlink_companion_log_se.Base.{
  max, ℕ, ◌+◌, ◌≤◌, ◌<◌, ◌≡◌, ◌↔◌, refl, List, [], ◌∷◌, Bool, true, false, ◌&&◌, ◌||◌, not, inl,
  inr, arith, ltb, leb, ◌==◌, Bool-cases, if◌then◌else◌,
}
use mavlink_companion_log_se.ReceivedRanges.{
  Span, complete, gaps, gaps_from, covers, IsMerged, Above, Within,
}

-- The bytes that a list of gaps, pairs of an offset and a length, asks for.
unfoldable pub asked : List Span → ℕ → Bool
asked [] b = false
asked (g ∷ gs) b = (leb g.first b && ltb b (g.first + g.second)) || asked gs b

pub covers-Above : (lo b : ℕ) (rs : List Span) → Above lo rs → b ≤ lo → covers rs b ≡ false
unfolding covers
covers-Above lo b [] a h = refl
covers-Above lo b (r ∷ rs) a h = ground (arith, covers-Above r.second b rs a.2)

asked-gaps_from :
    (cursor total b : ℕ) (rs : List Span)
    → Above cursor rs
    → Within total rs
    → asked (gaps_from cursor rs total) b ≡ (leb cursor b && ltb b total && not (covers rs b))
unfolding asked gaps_from covers
asked-gaps_from cursor total b [] a w = ground arith
asked-gaps_from cursor total b (r ∷ rs) a w =
    ground (arith, asked-gaps_from r.second total b rs a.2 w.1, covers-Above r.second b rs a.2)

-- While no interval reaches beyond the total, `gaps` asks for exactly the bytes below the total
-- that are not covered: none twice over a received one, and none is left out.
pub asked-gaps :
    (rs : List Span) (total b : ℕ)
    → IsMerged rs
    → Within total rs
    → asked (gaps rs total) b ≡ (ltb b total && not (covers rs b))
unfolding gaps gaps_from asked covers
asked-gaps [] total b m w = ground arith
asked-gaps (r ∷ rs) total b m w =
    ground (arith, asked-gaps_from r.second total b rs m.1 w.1, covers-Above r.second b rs m.1)

-- A first interval that misses byte 0, or whose end lies before the total, leaves a byte out.
missing : List Span → ℕ
missing [] = 0
missing (r ∷ rs) = if r.first == 0 then r.second else 0

pub covers-nil : (b : ℕ) → covers [] b ≡ false
unfolding covers
covers-nil b = refl

pub complete-covers :
    (rs : List Span) (total b : ℕ) → complete rs total ≡ true → b < total → covers rs b ≡ true
unfolding complete covers
complete-covers [] total b c h = ground arith
complete-covers (r ∷ []) total b c h = ground arith
complete-covers (r ∷ s ∷ rs) total b c h = ground arith

not_complete-missing :
    (rs : List Span) (total : ℕ)
    → IsMerged rs
    → Within total rs
    → complete rs total ≡ false
    → (missing rs < total) × (covers rs (missing rs) ≡ false)
unfolding complete covers missing
not_complete-missing [] total m w c = ground arith
not_complete-missing (r ∷ []) total m w c = ground arith
not_complete-missing (r ∷ s ∷ rs) total m w c =
    ground (arith, covers-Above s.second 0 rs m.1.2, covers-Above s.second r.second rs m.1.2)

-- Over merged intervals that stay within the total, `complete` says exactly whether every byte
-- below the total is covered.
pub complete_iff :
    (rs : List Span) (total : ℕ)
    → IsMerged rs
    → Within total rs
    → (complete rs total ≡ true) ↔ ((b : ℕ) → b < total → covers rs b ≡ true)
complete_iff rs total m w = (λ c b. complete-covers rs total b c, back)
  where
    back : ((b : ℕ) → b < total → covers rs b ≡ true) → complete rs total ≡ true
    back all = elim (Bool-cases (complete rs total)) [
      | inl done ↦ done
      | inr open_end ↦
          let (low, bare) = not_complete-missing rs total m w open_end in
          cc (all (missing rs) low, bare)
    ]

-- No gap is empty, and none reaches beyond the total.
abbrev pub AllGaps : ℕ → List Span → Type 0
AllGaps total [] = Unit {0}
AllGaps total (g ∷ gs) = (0 < g.second) × (g.first + g.second ≤ total) × AllGaps total gs

AllGaps-if :
    (total : ℕ) (b : Bool) (g : Span) (gs : List Span)
    → (b ≡ true → (0 < g.second) × (g.first + g.second ≤ total))
    → AllGaps total gs
    → AllGaps total (if b then g ∷ gs else gs)
AllGaps-if total true g gs h rest = ((h refl).0, (h refl).1, rest)
AllGaps-if total false g gs h rest = rest

gaps_from-AllGaps :
    (cursor b total : ℕ) (rs : List Span)
    → Above b rs
    → Within total rs
    → AllGaps total (gaps_from cursor rs total)
unfolding gaps_from
gaps_from-AllGaps cursor b total [] a w =
    AllGaps-if total _ _ [] (λ e. (ground arith, ground arith)) tt
gaps_from-AllGaps cursor b total (r ∷ rs) a w =
    AllGaps-if total _ _ _ (λ e. (ground arith, ground arith))
      (gaps_from-AllGaps (max cursor r.second) r.second total rs a.2 w.1)

pub gaps-AllGaps :
    (rs : List Span) (total : ℕ) → IsMerged rs → Within total rs → AllGaps total (gaps rs total)
unfolding gaps gaps_from
gaps-AllGaps [] total m w = AllGaps-if total _ _ [] (λ e. (ground arith, ground arith)) tt
gaps-AllGaps (r ∷ rs) total m w =
    AllGaps-if total _ _ _ (λ e. (ground arith, ground arith))
      (gaps_from-AllGaps (max 0 r.second) r.second total rs m.1 w.1)
