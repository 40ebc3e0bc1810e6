-- ===== src/Storage/Limit.antt =====
-- What `enforceStorageLimit` removes: the oldest files, and only as many as the limit asks for.
use mavlink_companion_log_se.Base.{
  ℕ, ◌+◌, ◌-◌, ◌^◌, ◌≤◌, ◌<◌, ◌≡◌, refl, sym, ap, ◌∙◌, subst, List, [], ◌∷◌, ◌++◌, Bool, true,
  false, leb, if◌then◌else◌, arith, Bool-cases, inl, inr,
}
use mavlink_companion_log_se.Base.Bits.{u64}
use mavlink_companion_log_se.Storage.{
  File, verified_files, total_from, insert_file, sort_files, remove_oldest, max_bytes_of,
  enforce_storage_limit,
}

-- The bytes of files, without a bound.
unfoldable pub bytes_of : List File → ℕ
bytes_of [] = 0
bytes_of (f ∷ fs) = f.size + bytes_of fs

-- Each file is removed only while the files that are left are above the limit.
abbrev pub Needed : ℕ → ℕ → List File → Type 0
Needed limit total [] = Unit {0}
Needed limit total (f ∷ fs) = (limit < total) × Needed limit (total - f.size) fs

-- No file of the list is older than `t`.
abbrev pub NotBefore : ℕ → List File → Type 0
NotBefore t [] = Unit {0}
NotBefore t (f ∷ fs) = (t ≤ f.mtime) × NotBefore t fs

-- Each removed file is at most as young as those that are left.
abbrev pub OlderThan : List File → List File → Type 0
OlderThan [] left = Unit {0}
OlderThan (f ∷ fs) left = NotBefore f.mtime left × OlderThan fs left

abbrev InOrder : List File → Type 0
InOrder [] = Unit {0}
InOrder (f ∷ fs) = NotBefore f.mtime fs × InOrder fs

u64-small : (n : ℕ) → n < 2 ^ 64 → u64 n ≡ n
u64-small n h = omega arith

total_from-bytes :
    (total : ℕ) (fs : List File)
    → total + bytes_of fs < 2 ^ 64
    → total_from total fs ≡ total + bytes_of fs
unfolding total_from bytes_of
total_from-bytes total [] h = omega arith
total_from-bytes total (f ∷ fs) h =
    ap (λ n. total_from n fs) (u64-small (total + f.size) (omega arith))
    ∙ total_from-bytes (total + f.size) fs (omega arith)
    ∙ omega arith

bytes-insert : (f : File) (fs : List File) → bytes_of (insert_file f fs) ≡ f.size + bytes_of fs
unfolding bytes_of insert_file
bytes-insert f [] = refl
bytes-insert f (g ∷ gs) = ground (arith, bytes-insert f gs)

bytes-sort : (fs : List File) → bytes_of (sort_files fs) ≡ bytes_of fs
unfolding bytes_of sort_files
bytes-sort [] = refl
bytes-sort (f ∷ fs) = bytes-insert f (sort_files fs) ∙ ap (λ n. f.size + n) (bytes-sort fs)

NotBefore-trans : (a b : ℕ) (fs : List File) → a ≤ b → NotBefore b fs → NotBefore a fs
NotBefore-trans a b [] h n = tt
NotBefore-trans a b (f ∷ fs) h n = (omega (arith, n.0), NotBefore-trans a b fs h n.1)

NotBefore-insert :
    (t : ℕ) (f : File) (fs : List File)
    → t ≤ f.mtime
    → NotBefore t fs
    → NotBefore t (insert_file f fs)
unfolding insert_file
NotBefore-insert t f [] h n = (h, tt)
NotBefore-insert t f (g ∷ gs) h n = elim (Bool-cases (leb f.mtime g.mtime)) [
  | inl e ↦ rw (e, insert_file) (h, n)
  | inr e ↦ rw (e, insert_file) (n.0, NotBefore-insert t f gs h n.1)
]

InOrder-insert : (f : File) (fs : List File) → InOrder fs → InOrder (insert_file f fs)
unfolding insert_file
InOrder-insert f [] o = (tt, tt)
InOrder-insert f (g ∷ gs) o = elim (Bool-cases (leb f.mtime g.mtime)) [
  | inl e ↦
      let le : f.mtime ≤ g.mtime = ground arith in
      rw (e, insert_file) ((le, NotBefore-trans f.mtime g.mtime gs le o.0), o)
  | inr e ↦
      let le : g.mtime ≤ f.mtime = ground arith in
      rw (e, insert_file) (NotBefore-insert g.mtime f gs le o.0, InOrder-insert f gs o.1)
]

InOrder-sort : (fs : List File) → InOrder (sort_files fs)
unfolding sort_files
InOrder-sort [] = tt
InOrder-sort (f ∷ fs) = InOrder-insert f (sort_files fs) (InOrder-sort fs)

NotBefore-suffix : (t : ℕ) (xs ys : List File) → NotBefore t (xs ++ ys) → NotBefore t ys
NotBefore-suffix t [] ys n = n
NotBefore-suffix t (x ∷ xs) ys n = NotBefore-suffix t xs ys n.1

bytes-none : (fs : List File) → bytes_of [] + bytes_of fs ≡ bytes_of fs
unfolding bytes_of
bytes-none fs = omega arith

bytes-append : (xs ys : List File) → bytes_of (xs ++ ys) ≡ bytes_of xs + bytes_of ys
unfolding bytes_of
bytes-append [] ys = omega arith
bytes-append (x ∷ xs) ys = omega (arith, bytes-append xs ys)

-- What the last loop does to the files `fs`.
abbrev Removes : ℕ → List File → ℕ → List File × List File → Type 0
Removes limit fs total r =
    (r.0 ++ r.1 ≡ fs) × (bytes_of r.1 ≤ limit) × Needed limit total r.0 × OlderThan r.0 r.1

remove_oldest-Removes :
    (limit : ℕ) (fs : List File) (total : ℕ)
    → total ≡ bytes_of fs
    → total < 2 ^ 64
    → InOrder fs
    → Removes limit fs total (remove_oldest limit total fs)
unfolding remove_oldest bytes_of
remove_oldest-Removes limit [] total e h o = (refl, omega arith, tt, tt)
remove_oldest-Removes limit (f ∷ fs) total e h o = elim (Bool-cases (leb total limit)) [
  | inl fits ↦
      subst (Removes limit (f ∷ fs) total) (sym (step_fits fits)) (refl, ground arith, tt, tt)
  | inr over ↦
      let total' = u64 (total + 2 ^ 64 - f.size) in
      let less : total' ≡ total - f.size = omega arith in
      let (whole, fits, needed, older) =
        remove_oldest-Removes limit fs total' (omega arith) (omega arith) o.1 in
      let r = remove_oldest limit total' fs in
      subst (Removes limit (f ∷ fs) total) (sym (step_over over)) (
        ap (λ xs. f ∷ xs) whole,
        fits,
        (ground arith, subst (λ n. Needed limit n r.0) less needed),
        (NotBefore-suffix f.mtime r.0 r.1 (subst (NotBefore f.mtime) (sym whole) o.0), older),
      )
]
  where
    step_fits : leb total limit ≡ true → remove_oldest limit total (f ∷ fs) ≡ ([], f ∷ fs)
    step_fits fits = ground arith

    step_over :
        leb total limit ≡ false
        → remove_oldest limit total (f ∷ fs) ≡ (
          f ∷ (remove_oldest limit (u64 (total + 2 ^ 64 - f.size)) fs).0,
          (remove_oldest limit (u64 (total + 2 ^ 64 - f.size)) fs).1,
        )
    step_over over = ground arith

-- The files left fit the limit, none is older than one that was removed, each removal was needed, and no
-- byte is lost from the count.
abbrev pub Enforced : ℕ → ℕ → List File × List File → Type 0
Enforced limit total r =
    (bytes_of r.1 ≤ limit)
    × OlderThan r.0 r.1
    × Needed limit total r.0
    × (bytes_of r.0 + bytes_of r.1 ≡ total)

Enforced-if :
    (limit total : ℕ) (b : Bool) (x y : List File × List File)
    → (b ≡ true → Enforced limit total x)
    → (b ≡ false → Enforced limit total y)
    → Enforced limit total (if b then x else y)
Enforced-if limit total true x y t f = t refl
Enforced-if limit total false x y t f = f refl

-- After `enforceStorageLimit` the archived logs that are left fit the limit, none is older than one that was
-- removed, each removal was needed, the files then left being above the limit, and the removed and
-- the kept files make up all of the bytes. The archived logs have fewer than 2 ^ 64 bytes.
pub enforce_storage_limit_lem :
    (max_size_gb : ℕ) (files : List File)
    → bytes_of (verified_files files) < 2 ^ 64
    → Enforced
        (max_bytes_of max_size_gb)
        (bytes_of (verified_files files))
        (enforce_storage_limit max_size_gb files)
unfolding enforce_storage_limit
enforce_storage_limit_lem max_size_gb files h =
    let limit = max_bytes_of max_size_gb in
    let verified = verified_files files in
    let total = total_from 0 verified in
    let counted : total ≡ bytes_of verified =
      total_from-bytes 0 verified (omega arith) ∙ omega arith in
    let (whole, fits, needed, older) =
      remove_oldest-Removes limit (sort_files verified) total (counted ∙ sym (bytes-sort verified))
        (omega arith) (InOrder-sort verified) in
    let r = remove_oldest limit total (sort_files verified) in
    Enforced-if limit (bytes_of verified) (leb total limit) ([], verified) r
      (λ under. (ground arith, tt, tt, bytes-none verified))
      (λ over. (
        fits,
        older,
        subst (λ n. Needed limit n r.0) counted needed,
        sym (bytes-append r.0 r.1) ∙ ap bytes_of whole ∙ bytes-sort verified,
      ))
