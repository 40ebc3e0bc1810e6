-- ===== src/DroneLogService/Companion.antt =====
-- src/DroneLogService.cpp: `requestCompanionJob` on the companion's thread, `drainCompanionCommands` on
-- the main thread, and the page of cached logs. include/mcls/CompanionCommandQueue.hpp is the list of
-- commands, oldest first.
use mavlink_companion_log_se.Base.{
  ℕ, List, [], ◌∷◌, ◌++◌, Bool, true, false, ◌||◌, not, ◌==◌, if◌then◌else◌, length, take, drop,
}
use mavlink_companion_log_se.Base.Int.{ℤ, pos_part}
use mavlink_companion_log_se.Types.{LogEntry}
use mavlink_companion_log_se.Database.{has_archived}
use mavlink_companion_log_se.DroneLogService.Model.{
  State, Command, start_archive, cancel_archive, refresh_logs, download_logs, erase_all_logs,
  Service, set_state, is_archive_busy, request_cancel, reset_cancel,
}

pub data JobKind : Type 0 where
  archive refresh download erase_all : JobKind

pub data JobStart : Type 0 where
  accepted already_running armed not_connected not_found : JobStart

pub record JobOutcome : Type 0 where
  pub result : JobStart
  pub queued : ℕ
  pub not_found_ids : List ℕ

abbrev pub outcome : JobStart → JobOutcome
outcome r = record { result = r; queued = 0; not_found_ids = [] }

unfoldable pub push_command : Command → Service → Service
push_command c s = record s { companion_commands = s.companion_commands ++ c ∷ [] }

unfoldable pub has_entry : List LogEntry → ℕ → Bool
has_entry [] id = false
has_entry (e ∷ es) id = e.id == id || has_entry es id

-- The requested ids that are in the cached list, and those that are not.
unfoldable pub split_ids : List LogEntry → List ℕ → List ℕ × List ℕ
split_ids logs [] = ([], [])
split_ids logs (id ∷ ids) =
    let (valid, missing) = split_ids logs ids in
    if has_entry logs id then (id ∷ valid, missing) else (valid, id ∷ missing)

unfoldable pub no_ids : List ℕ → Bool
no_ids [] = true
no_ids (id ∷ ids) = false

unfoldable pub request_download : List ℕ → Bool → Service → Service × JobOutcome
request_download ids all s =
    let (valid, missing) = split_ids s.cached_fc_logs ids in
    if all
    then (
      push_command (download_logs [] true) s,
      record { result = accepted; queued = length s.cached_fc_logs; not_found_ids = [] },
    )
    else if no_ids valid
    then (s, record { result = not_found; queued = 0; not_found_ids = missing })
    else (
      push_command (download_logs valid false) s,
      record { result = accepted; queued = length valid; not_found_ids = missing },
    )

unfoldable pub request_erase : Service → Service × JobOutcome
request_erase s = if not s.connected then (s, outcome not_connected) else (
  push_command erase_all_logs (if is_archive_busy s.state then request_cancel s else s),
  outcome accepted,
)

-- The switch on the kind of a job whose preconditions hold.
unfoldable pub queue_job : JobKind → List ℕ → Bool → Service → Service × JobOutcome
queue_job JobKind.archive ids all s = (push_command start_archive s, outcome accepted)
queue_job JobKind.refresh ids all s = (push_command refresh_logs s, outcome accepted)
queue_job JobKind.download ids all s = request_download ids all s
queue_job JobKind.erase_all ids all s = (s, outcome accepted)

unfoldable pub is_erase : JobKind → Bool
is_erase JobKind.erase_all = true
is_erase _ = false

unfoldable pub request_companion_job : JobKind → List ℕ → Bool → Service → Service × JobOutcome
request_companion_job kind ids all s =
    if is_erase kind
    then request_erase s
    else if is_archive_busy s.state
    then (s, outcome already_running)
    else if s.monitor.armed
    then (s, outcome armed)
    else if not s.connected
    then (s, outcome not_connected)
    else queue_job kind ids all s

-- The visitor of one command.
unfoldable pub run_command : Command → Service → Service
run_command start_archive s =
    if is_archive_busy s.state || (s.monitor.armed || not s.connected)
    then s
    else set_state State.enumerate (reset_cancel (record s { archive_requested = false }))
run_command cancel_archive s = request_cancel s
run_command refresh_logs s = set_state State.manual_refresh (reset_cancel s)
run_command (download_logs ids all) s =
    set_state State.manual_download
      (reset_cancel (record s { manual_download_ids = ids; manual_download_all = all }))
run_command erase_all_logs s = set_state State.manual_erase (reset_cancel s)

unfoldable pub run_commands : List Command → Service → Service
run_commands [] s = s
run_commands (c ∷ cs) s = run_commands cs (run_command c s)

unfoldable pub drain_companion_commands : Service → Service
drain_companion_commands s =
    run_commands s.companion_commands (record s { companion_commands = [] })

-- One entry of a page.
pub record FcLogEntry : Type 0 where
  pub id : ℕ
  pub size : ℕ
  pub time_utc : ℕ
  pub downloaded : Bool

pub record FcLogsPage : Type 0 where
  pub count : ℕ
  pub offset : ℤ
  pub entries : List FcLogEntry
  pub truncated : Bool
  pub stale : Bool

unfoldable pub page_entries : Service → List LogEntry → List FcLogEntry
page_entries s [] = []
page_entries s (e ∷ es) =
    record {
      id = e.id;
      size = e.size;
      time_utc = e.time_utc;
      downloaded = has_archived s.downloader.database e.id e.size;
    }
    ∷ page_entries s es

-- `buildFcLogsPage`; what it adds stays in the range of `int`.
unfoldable pub build_fc_logs_page : ℤ → ℤ → Service → FcLogsPage
build_fc_logs_page offset limit s = record {
  count = length s.cached_fc_logs;
  offset = offset;
  entries = page_entries s (take (pos_part limit) (drop (pos_part offset) s.cached_fc_logs));
  truncated = false;
  stale = s.fc_logs_stale;
}
