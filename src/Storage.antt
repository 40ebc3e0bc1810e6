-- ===== src/Storage.antt =====
-- src/StorageManager.cpp: `enforceStorageLimit` and `totalVerifiedBytes`. The directory of logs is the list of the
-- files that the iterator meets; the effect of `enforceStorageLimit` is the files that it removes, in order.
-- `std::sort` by time is a stable insertion sort; the source leaves the order of equal times open.
pub mod Moved
pub mod Limit
pub mod Partials
pub mod Stored
pub mod Archived
mod Examples
use mavlink_companion_log_se.Base.{
  ℕ, ◌+◌, ◌-◌, ◌*◌, ◌^◌, List, [], ◌∷◌, Bool, ◌&&◌, leb, if◌then◌else◌,
}
use mavlink_companion_log_se.Base.Bits.{u64}
use mavlink_companion_log_se.Types.{Text}

pub record File : Type 0 where
  pub path : Text
  pub mtime : ℕ
  pub size : ℕ
  pub is_regular_file : Bool
  -- Whether the extension is `.bin`.
  pub is_bin : Bool

unfoldable pub verified_files : List File → List File
verified_files [] = []
verified_files (f ∷ fs) =
    let rest = verified_files fs in if f.is_regular_file && f.is_bin then f ∷ rest else rest

unfoldable pub total_from : ℕ → List File → ℕ
total_from total [] = total
total_from total (f ∷ fs) = total_from (u64 (total + f.size)) fs

unfoldable pub total_verified_bytes : List File → ℕ
total_verified_bytes files = total_from 0 (verified_files files)

unfoldable pub insert_file : File → List File → List File
insert_file f [] = f ∷ []
insert_file f (g ∷ gs) = if leb f.mtime g.mtime then f ∷ g ∷ gs else g ∷ insert_file f gs

unfoldable pub sort_files : List File → List File
sort_files [] = []
sort_files (f ∷ fs) = insert_file f (sort_files fs)

-- The last loop: the files removed, and those left.
unfoldable pub remove_oldest : ℕ → ℕ → List File → List File × List File
remove_oldest max_bytes total [] = ([], [])
remove_oldest max_bytes total (f ∷ fs) =
    let (removed, left) = remove_oldest max_bytes (u64 (total + 2 ^ 64 - f.size)) fs in
    if leb total max_bytes then ([], f ∷ fs) else (f ∷ removed, left)

unfoldable pub max_bytes_of : ℕ → ℕ
max_bytes_of max_size_gb = u64 (max_size_gb * 1024 * 1024 * 1024)

unfoldable pub enforce_storage_limit : ℕ → List File → List File × List File
enforce_storage_limit max_size_gb files =
    let verified = verified_files files in
    let total = total_from 0 verified in
    if leb total (max_bytes_of max_size_gb)
    then ([], verified)
    else remove_oldest (max_bytes_of max_size_gb) total (sort_files verified)
