-- ===== src/Storage/Moved.antt =====
-- What `finalizePartial` does to the files.
use mavlink_companion_log_se.Base.{
  ℕ, ◌≡◌, ◌≢◌, refl, sym, ap, subst, List, true, false, ◌&&◌, Option, none, some, arith, Bool-cases,
  ◌⊎◌, inl, inr,
}
use mavlink_companion_log_se.Types.{Text, text_eq_refl, eq_of_text_eq}
use mavlink_companion_log_se.Storage.Partials.{
  FilePath, partial, archive, other, same_path, Disk, rename_path, Finalizing, finalize_partial,
}

pub same_path_refl : (p : FilePath) → same_path p p ≡ true
unfolding same_path
same_path_refl (partial s n) = ground (arith, text_eq_refl s)
same_path_refl (archive d s) = ground (arith, text_eq_refl s, text_eq_refl d)
same_path_refl (other s) = text_eq_refl s

same_path-eq : (p q : FilePath) → same_path p q ≡ true → p ≡ q
unfolding same_path
same_path-eq (partial s n) (partial t m) e = grind (arith, eq_of_text_eq s t)
same_path-eq (archive d s) (archive e t) h = grind (arith, eq_of_text_eq s t, eq_of_text_eq d e)
same_path-eq (other s) (other t) e = ap other (eq_of_text_eq s t e)
same_path-eq (partial s n) (archive e t) h = absurd cc
same_path-eq (partial s n) (other t) h = absurd cc
same_path-eq (archive d s) (partial t m) h = absurd cc
same_path-eq (archive d s) (other t) h = absurd cc
same_path-eq (other s) (partial t m) h = absurd cc
same_path-eq (other s) (archive e t) h = absurd cc

pub same_path-ne : (p q : FilePath) → p ≢ q → same_path p q ≡ false
same_path-ne p q ne = elim (Bool-cases (same_path p q)) [
  | inl same ↦ absurd (ne (same_path-eq p q same))
  | inr differ ↦ differ
]

-- All files but those at `p` and `to` are as before.
abbrev pub Unchanged : FilePath → FilePath → Disk → Disk → Type 0
Unchanged p to before after = (q : FilePath) → q ≢ p → q ≢ to → after q ≡ before q

-- The file at `p` is at `to` now, whole.
abbrev pub Moved : FilePath → FilePath → List ℕ → Disk → Disk × Option FilePath → Type 0
Moved p to content before (after, r) =
    (r ≡ some to) × (after to ≡ some content) × (after p ≡ none) × Unchanged p to before after

abbrev pub Refused : FilePath → Disk → Disk × Option FilePath → Type 0
Refused p before (after, r) = (r ≡ none) × Unchanged p p before after

rename-Moved :
    (stamp : Text) (n : ℕ) (day now : Text) (content : List ℕ) (disk : Disk)
    → disk (partial stamp n) ≡ some content
    → Moved
        (partial stamp n)
        (archive day now)
        content
        disk
        (rename_path (partial stamp n) (archive day now) disk, some (archive day now))
unfolding rename_path same_path
rename-Moved stamp n day now content disk there = (
  refl,
  rw (text_eq_refl day, text_eq_refl now) there,
  ground (arith, text_eq_refl stamp),
  λ q ne_p ne_to.
      ground (arith, same_path-ne q (partial stamp n) ne_p, same_path-ne q (archive day now) ne_to),
)

finalize_partial-renamed :
    (f : Finalizing) (p : FilePath) (content : List ℕ) (disk : Disk)
    → disk p ≡ some content
    → f.fsyncs && f.renames ≡ true
    → rename_path p (archive f.day f.stamp) disk (archive f.day f.stamp) ≡ some content
    → finalize_partial f p disk
      ≡ (rename_path p (archive f.day f.stamp) disk, some (archive f.day f.stamp))
unfolding finalize_partial
finalize_partial-renamed f p content disk there fine moved = ground arith

finalize_partial-refused :
    (f : Finalizing) (p : FilePath) (content : List ℕ) (disk : Disk)
    → disk p ≡ some content
    → f.fsyncs && f.renames ≡ false
    → finalize_partial f p disk ≡ (disk, none)
unfolding finalize_partial
finalize_partial-refused f p content disk there wrong = ground arith

pub finalize_partial-cases :
    (f : Finalizing) (stamp : Text) (n : ℕ) (content : List ℕ) (disk : Disk)
    → disk (partial stamp n) ≡ some content
    → Moved
        (partial stamp n)
        (archive f.day f.stamp)
        content
        disk
        (finalize_partial f (partial stamp n) disk)
      ⊎ Refused (partial stamp n) disk (finalize_partial f (partial stamp n) disk)
finalize_partial-cases f stamp n content disk there =
    let p = partial stamp n in
    let to = archive f.day f.stamp in
    let moved = rename-Moved stamp n f.day f.stamp content disk there in
    elim (Bool-cases (f.fsyncs && f.renames)) [
      | inl fine ↦ inl (
          subst (λ r. Moved p to content disk r)
            (sym (finalize_partial-renamed f p content disk there fine moved.1)) moved)
      | inr wrong ↦ inr (
          subst (λ r. Refused p disk r)
            (sym (finalize_partial-refused f p content disk there wrong)) (refl, λ q a b. refl))
    ]
