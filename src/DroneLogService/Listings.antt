-- ===== src/DroneLogService/Listings.antt =====
-- src/DroneLogService.cpp: what the cached list of logs makes of a selection of ids, and the pages of the list.
use mavlink_companion_log_se.Base.{ℕ, ◌≡◌, List, [], ◌∷◌, Option, none, some, Has}
use mavlink_companion_log_se.Types.{LogEntry}
use mavlink_companion_log_se.Database.{has_archived}
use mavlink_companion_log_se.DroneLogService.Model.{Service}
use mavlink_companion_log_se.DroneLogService.Companion.{FcLogEntry}

-- A log of the list has the id.
abbrev pub Listed : List LogEntry → ℕ → Type 0
Listed logs id = (e : LogEntry) × Has e logs × (e.id ≡ id)

-- The ids told apart, each in its order and as often as it was asked for, by whether a log of the list has it.
pub data Split (logs : List LogEntry) : List ℕ → List ℕ → List ℕ → Type 0 where
  nothing : Split logs [] [] []
  is_listed :
      {id : ℕ} {ids found missing : List ℕ}
      → Listed logs id
      → Split logs ids found missing
      → Split logs (id ∷ ids) (id ∷ found) missing
  is_missing :
      {id : ℕ} {ids found missing : List ℕ}
      → (Listed logs id → ⊥)
      → Split logs ids found missing
      → Split logs (id ∷ ids) found (id ∷ missing)

-- An entry of a page for a log of the list.
abbrev pub Shows : Service → Option LogEntry → Option FcLogEntry → Type 0
Shows s none none = Unit {0}
Shows s none (some fc) = ⊥
Shows s (some e) none = ⊥
Shows s (some e) (some fc) =
    (fc.id ≡ e.id)
    × (fc.size ≡ e.size)
    × (fc.time_utc ≡ e.time_utc)
    × (fc.downloaded ≡ has_archived s.downloader.database e.id e.size)
