-- ===== src/LogDownloader/Cycle.antt =====
-- A whole cycle: its loop in cases, and its counts.
use mavlink_companion_log_se.Base.{
  ℕ, suc, ◌+◌, ◌≤◌, ◌≡◌, ◌⊎◌, refl, sym, subst, List, [], ◌∷◌, true, false, ◌&&◌, ◌||◌, not, ◌==◌,
  arith, inl, inr, Bool-cases, length,
}
use mavlink_companion_log_se.Types.{ArchiveResult, FailureReason, CycleResult, empty_cycle}
use mavlink_companion_log_se.LogDownloader.Archive.{
  Settings, Downloader, Job, Cycle, cancel_if, archive_one, archive_loop, archive_all, tally,
  stops_all, counts_as_failed,
}

abbrev total : CycleResult → ℕ
total r = r.downloaded + r.skipped + r.failed + r.cancelled

-- The flag says whether anything failed or was cancelled.
abbrev Flagged : Cycle → Type 0
Flagged c = c.any_failed ≡ not (c.result.failed == 0 && c.result.cancelled == 0)

-- One pass of the loop that goes on.
abbrev pub next_cycle : Cycle → FailureReason → ArchiveResult → Downloader → Cycle
next_cycle c reason outcome d = record {
  downloader = d;
  result = tally c.result reason outcome;
  any_failed = c.any_failed || counts_as_failed outcome;
}

next-Flagged :
    (c : Cycle) (reason : FailureReason) (o : ArchiveResult) (d : Downloader)
    → Flagged c
    → Flagged (next_cycle c reason o d)
unfolding tally counts_as_failed
next-Flagged c reason ArchiveResult.skipped_duplicate d f = ground arith
next-Flagged c reason ArchiveResult.downloaded d f = ground arith
next-Flagged c reason ArchiveResult.failed d f = ground arith
next-Flagged c reason ArchiveResult.cancelled d f = ground arith

next-total :
    (c : Cycle) (reason : FailureReason) (o : ArchiveResult) (d : Downloader)
    → total (next_cycle c reason o d).result ≡ total c.result + 1
unfolding tally
next-total c reason ArchiveResult.skipped_duplicate d = omega arith
next-total c reason ArchiveResult.downloaded d = omega arith
next-total c reason ArchiveResult.failed d = omega arith
next-total c reason ArchiveResult.cancelled d = omega arith

pub stops-counts : (o : ArchiveResult) → stops_all o ≡ true → counts_as_failed o ≡ true
unfolding stops_all counts_as_failed
stops-counts ArchiveResult.cancelled e = refl
stops-counts ArchiveResult.skipped_duplicate e = cc
stops-counts ArchiveResult.downloaded e = cc
stops-counts ArchiveResult.failed e = cc

module _ (cfg : Settings) (c : Cycle) (j : Job) (js : List Job) where
  abbrev pub asked : Downloader
  asked = cancel_if j.cancels c.downloader

  abbrev pub outcome : ArchiveResult
  outcome = (archive_one cfg j.answers j.entry asked).1

  abbrev pub next : Cycle
  next =
      next_cycle c (archive_one cfg j.answers j.entry asked).0.last_failure_reason outcome
        (archive_one cfg j.answers j.entry asked).0

  total-next : total next.result ≡ total c.result + 1
  total-next =
      next-total c (archive_one cfg j.answers j.entry asked).0.last_failure_reason outcome
        (archive_one cfg j.answers j.entry asked).0

  Flagged-next : Flagged c → Flagged next
  Flagged-next f =
      next-Flagged c (archive_one cfg j.answers j.entry asked).0.last_failure_reason outcome
        (archive_one cfg j.answers j.entry asked).0 f

  -- The loop's three ways on a log: stop before it, stop after it, go on.
  pub loop-cases :
      ((archive_loop cfg c (j ∷ js) ≡ record {
        downloader = asked;
        result = tally c.result FailureReason.cancelled ArchiveResult.cancelled;
        any_failed = true;
      }))
      ⊎ ((stops_all outcome ≡ true) × (archive_loop cfg c (j ∷ js) ≡ next))
      ⊎ ((archive_loop cfg c (j ∷ js) ≡ archive_loop cfg next js))
  unfolding archive_loop
  loop-cases = elim (Bool-cases asked.cancel_requested) [
    | inl stop ↦ inl (ground arith)
    | inr go ↦ elim (Bool-cases (stops_all outcome)) [
      | inl last ↦ inr (inl (last, ground arith))
      | inr more ↦ inr (inr (ground arith))
    ]
  ]

-- The counts of a cycle that ends as `r` from `c` on `n` logs.
abbrev Counts : Cycle → ℕ → Cycle → Type 0
Counts c n r =
    Flagged r
    × (total r.result ≤ total c.result + n)
    × ((r.any_failed ≡ true) ⊎ (total r.result ≡ total c.result + n))

archive_loop-Counts :
    (cfg : Settings) (c : Cycle) (js : List Job)
    → Flagged c
    → Counts c (length js) (archive_loop cfg c js)
unfolding archive_loop
archive_loop-Counts cfg c [] f = (f, omega arith, inr (omega arith))
archive_loop-Counts cfg c (j ∷ js) f = elim (loop-cases cfg c j js) [
  | inl e ↦
      subst (Counts c (suc (length js))) (sym e)
        (unfold tally in ground arith, unfold tally in omega arith, inl refl)
  | inr (inl (last, e)) ↦ subst (Counts c (suc (length js))) (sym e) (
    Flagged-next cfg c j js f,
    omega (arith, total-next cfg c j js),
    inl (ground (arith, stops-counts (outcome cfg c j js))),
  )
  | inr (inr e) ↦ subst (Counts c (suc (length js))) (sym e) (
      later c j (archive_loop cfg (next cfg c j js) js)
        (archive_loop-Counts cfg (next cfg c j js) js (Flagged-next cfg c j js f)))
]
  where
    later :
        (c : Cycle) (j : Job) (r : Cycle)
        → Counts (next cfg c j js) (length js) r
        → Counts c (suc (length js)) r
    later c j r (f, le, ends) =
        let e = total-next cfg c j js in
        (f, omega arith, elim ends [ inl bad ↦ inl bad | inr all ↦ inr (omega arith) ])

-- The result of a cycle adds up: no more outcomes than logs, `all_archived` exactly if nothing failed or
-- was cancelled, and then every log was either downloaded or skipped as a duplicate.
archive_all_counts :
    (cfg : Settings) (d : Downloader) (jobs : List Job)
    → let r = (archive_all cfg d jobs).1 in
      (r.downloaded + r.skipped + r.failed + r.cancelled ≤ length jobs)
      × (r.all_archived ≡ (r.failed == 0 && r.cancelled == 0))
      × ((r.all_archived ≡ false) ⊎ (r.downloaded + r.skipped ≡ length jobs))
unfolding archive_all
archive_all_counts cfg d jobs =
    let start : Cycle = record { downloader = d; result = empty_cycle; any_failed = false } in
    let (f, le, ends) = archive_loop-Counts cfg start jobs refl in
    (omega arith, ground arith, finish (archive_loop cfg start jobs) f ends)
  where
    finish :
        (c : Cycle)
        → Flagged c
        → (c.any_failed ≡ true) ⊎ (total c.result ≡ 0 + length jobs)
        → (not c.any_failed ≡ false) ⊎ (c.result.downloaded + c.result.skipped ≡ length jobs)
    finish c f (inl bad) = inl (ground arith)
    finish c f (inr all) = elim (Bool-cases c.any_failed) [
      | inl bad ↦ inl (ground arith)
      | inr good ↦ inr (ground arith)
    ]
