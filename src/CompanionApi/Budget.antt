-- ===== src/CompanionApi/Budget.antt =====
-- How long the replies are, and what is left out of them.
use mavlink_companion_log_se.Base.{
  ℕ, zero, suc, ◌/◌, ◌≤◌, ◌<◌, ◌≡◌, refl, sym, ap, ◌∙◌, subst, List, [], ◌∷◌, Bool, true, false,
  ◌||◌, ltb, length, take, arith, Bool-cases, inl, inr, ◌⊎◌, length-take, ltb→lt, ap₂,
}
use mavlink_companion_log_se.Base.Int.{ℤ}
use mavlink_companion_log_se.Types.{Text}
use mavlink_companion_log_se.DroneLogService.Companion.{FcLogEntry, FcLogsPage}
use mavlink_companion_log_se.CompanionApi.Json.{Json, JsonLibrary}
use mavlink_companion_log_se.CompanionApi.Request.{is_empty}
use mavlink_companion_log_se.CompanionApi.Snapshot.{ServiceSnapshot}
use mavlink_companion_log_se.CompanionApi.Reply.{
  SerializedResponse, base_response, with_data, status_data, minimal_data, fc_logs_response,
  try_serialize, build_error, build_status, halve_entries, build_fc_logs,
}

-- The first `k` entries of a page; it is truncated if that is not all.
abbrev pub cut : FcLogsPage → ℕ → FcLogsPage
cut page k = record page {
  entries = take k page.entries;
  truncated = page.truncated || ltb k (length page.entries);
}

module _ (lib : JsonLibrary) where
  try_serialize-le : (j : Json) (max_bytes : ℕ) → length (try_serialize lib j max_bytes) ≤ max_bytes
  unfolding try_serialize
  try_serialize-le j max_bytes = ground arith

  -- Every status reply fits the budget; at worst it is the empty text.
  pub build_status-le :
      (id : ℤ) (snap : ServiceSnapshot) (max_bytes : ℕ) (client : Text)
      → length (build_status lib id snap max_bytes client).json ≤ max_bytes
  unfolding build_status
  build_status-le id snap max_bytes client = ground (
    arith,
    try_serialize-le (with_data (status_data snap) (base_response id true false client)) max_bytes,
    try_serialize-le (with_data (minimal_data snap) (base_response id true true client)) max_bytes,
  )

  -- A document that is printed, and fits; or one that is too long, the library never printing nothing.
  try_serialize-cases :
      (prints : (j : Json) → 0 < length (lib.dump j)) (j : Json) (max_bytes : ℕ)
      → ((is_empty (try_serialize lib j max_bytes) ≡ false)
          × (try_serialize lib j max_bytes ≡ lib.dump j)
          × (length (lib.dump j) ≤ max_bytes))
        ⊎ ((is_empty (try_serialize lib j max_bytes) ≡ true) × (max_bytes < length (lib.dump j)))
  unfolding try_serialize
  try_serialize-cases prints j max_bytes = elim (Bool-cases (ltb max_bytes (length (lib.dump j)))) [
    | inl long ↦ rw long (inr (refl, ground arith))
    | inr fits ↦ rw fits (inl (not_empty (lib.dump j) (prints j), refl, ground arith))
  ]
    where
      not_empty : (s : Text) → 0 < length s → is_empty s ≡ false
      not_empty [] h = absurd (omega arith)
      not_empty (x ∷ xs) h = refl

  -- What a reply to `fc.logs` says: a page cut to its first entries that fits, or that not even the page with no
  -- entries fits.
  pub data Paged (id : ℤ) (page : FcLogsPage) (max_bytes : ℕ) (client : Text)
      (r : SerializedResponse) : Type 0 where
    fitted :
        (k : ℕ)
        → r.json ≡ lib.dump (fc_logs_response id client (cut page k))
        → r.truncated ≡ (cut page k).truncated
        → length r.json ≤ max_bytes
        → Paged id page max_bytes client r
    hopeless :
        r ≡ build_error lib id "internal" client
        → max_bytes < length (lib.dump (fc_logs_response id client (cut page 0)))
        → Paged id page max_bytes client r

  -- The page of the ladder at some first entries.
  at_entries : FcLogsPage → List FcLogEntry → FcLogsPage
  at_entries page es = record page { entries = es; truncated = true }

  take-take : (m n : ℕ) (es : List FcLogEntry) → m ≤ n → take m (take n es) ≡ take m es
  take-take zero n es h = refl
  take-take (suc m) zero es h = absurd (omega arith)
  take-take (suc m) (suc n) [] h = refl
  take-take (suc m) (suc n) (e ∷ es) h = ap (λ r. e ∷ r) (take-take m n es (omega arith))

  at_entries-cut :
      (page : FcLogsPage) (m : ℕ)
      → m < length page.entries
      → at_entries page (take m page.entries) ≡ cut page m
  unfolding at_entries
  at_entries-cut page m lt =
      let more : ltb m (length page.entries) ≡ true = ground arith in
      ap (λ b. record page { entries = take m page.entries; truncated = b })
        (sym (ap (λ b. page.truncated || b) more ∙ or_true page.truncated))
    where
      or_true : (b : Bool) → (b || true) ≡ true
      or_true true = refl
      or_true false = refl

  halve_entries-Paged :
      (prints : (j : Json) → 0 < length (lib.dump j)) (fuel : ℕ) (id : ℤ) (page : FcLogsPage)
      (max_bytes : ℕ) (client : Text) (es : List FcLogEntry)
      → es ≡ take (length es) page.entries
      → length es ≤ length page.entries
      → length es ≤ fuel
      → (max_bytes < length (lib.dump (fc_logs_response id client (cut page 0)))) ⊎ (0 < length es)
      → Paged id page max_bytes client
          (halve_entries lib fuel id (at_entries page es) max_bytes client)
  unfolding halve_entries at_entries
  halve_entries-Paged prints zero id page max_bytes client [] first within enough (inl long) =
      hopeless refl long
  halve_entries-Paged prints zero id page max_bytes client [] first within enough (inr some_left) =
      absurd (omega arith)
  halve_entries-Paged prints zero id page max_bytes client (e ∷ es) first within enough long =
      absurd (omega arith)
  halve_entries-Paged prints (suc fuel) id page max_bytes client [] first within enough (inl long) =
      hopeless refl long
  halve_entries-Paged prints (suc fuel) id page max_bytes client [] first within enough
        (inr some_left) =
      absurd (omega arith)
  halve_entries-Paged prints (suc fuel) id page max_bytes client (e ∷ es) first within enough long =
      let all = e ∷ es in
      let m = length all / 2 in
      let half = take m all in
      let count : length half ≡ m = omega (arith, length-take m all) in
      let same : half ≡ take m page.entries =
        ap (take m) first ∙ take-take m (length all) page.entries (omega arith) in
      let page' : at_entries page half ≡ cut page m =
        ap (at_entries page) same ∙ at_entries-cut page m (omega arith) in
      let j = fc_logs_response id client (at_entries page half) in
      let rest = halve_entries lib fuel id (at_entries page half) max_bytes client in
      let doc : lib.dump j ≡ lib.dump (fc_logs_response id client (cut page m)) =
        ap (λ q. lib.dump (fc_logs_response id client q)) page' in
      elim (try_serialize-cases prints j max_bytes) [
        | inl (printed, s, fits) ↦ rw printed (
            fitted m (s ∙ doc) (ap (λ q. q.truncated) page')
              (subst (λ x. length x ≤ max_bytes) (sym s) fits))
        | inr (failed, over) ↦
            let long' : (max_bytes < length (lib.dump (fc_logs_response id client (cut page 0))))
                ⊎ (0 < length half) =
              elim (Bool-cases (ltb 0 m)) [
                | inl some_left ↦ inr (omega (arith, count, ltb→lt 0 m some_left))
                | inr none_left ↦
                    let m_zero : m ≡ 0 = ground arith in
                    inl (
                      subst (λ x. max_bytes < length x)
                        (doc ∙ ap (λ k. lib.dump (fc_logs_response id client (cut page k))) m_zero)
                        over)
              ] in
            rw failed (
              halve_entries-Paged prints fuel id page max_bytes client half
                (same ∙ ap (λ k. take k page.entries) (sym count)) (omega (arith, count))
                (omega (arith, count)) long')
      ]

  take_all : (es : List FcLogEntry) → take (length es) es ≡ es
  take_all [] = refl
  take_all (e ∷ es) = ap (λ r. e ∷ r) (take_all es)

  cut-all : (page : FcLogsPage) → cut page (length page.entries) ≡ page
  cut-all page =
      let whole : ltb (length page.entries) (length page.entries) ≡ false = ground arith in
      ap₂ (λ es b. record page { entries = es; truncated = page.truncated || b })
        (take_all page.entries) whole
      ∙ ap (λ b. record page { truncated = b }) (or_false page.truncated)
    where
      or_false : (b : Bool) → (b || false) ≡ b
      or_false true = refl
      or_false false = refl

  -- A reply to `fc.logs` is the page cut to its first entries, marked as truncated if some are left out, and within
  -- the budget; or it is the error `internal`, and then not even the page with no entries fits. The library prints
  -- no document as the empty text.
  pub build_fc_logs-Paged :
      (prints : (j : Json) → 0 < length (lib.dump j)) (id : ℤ) (page : FcLogsPage) (max_bytes : ℕ)
      (client : Text)
      → Paged id page max_bytes client (build_fc_logs lib id page max_bytes client)
  unfolding build_fc_logs at_entries
  build_fc_logs-Paged prints id page max_bytes client =
      let n = length page.entries in
      let doc : lib.dump (fc_logs_response id client page)
          ≡ lib.dump (fc_logs_response id client (cut page n)) =
        ap (λ q. lib.dump (fc_logs_response id client q)) (sym (cut-all page)) in
      elim (try_serialize-cases prints (fc_logs_response id client page) max_bytes) [
        | inl (printed, s, fits) ↦ rw printed (
            fitted n (s ∙ doc) (ap (λ q. q.truncated) (sym (cut-all page)))
              (subst (λ x. length x ≤ max_bytes) (sym s) fits))
        | inr (failed, over) ↦ rw failed (
            halve_entries-Paged prints n id page max_bytes client page.entries
              (sym (take_all page.entries)) (omega arith) (omega arith)
              (elim (Bool-cases (ltb 0 n)) [
                | inl some_left ↦ inr (ltb→lt 0 n some_left)
                | inr none_left ↦
                    let n_zero : n ≡ 0 = ground arith in
                    inl (
                      subst (λ x. max_bytes < length x)
                        (doc ∙ ap (λ k. lib.dump (fc_logs_response id client (cut page k))) n_zero)
                        over)
              ]))
      ]
