-- ===== src/CompanionApi/Reply.antt =====
-- src/CompanionProtocol.cpp: the replies. The library that prints is an argument.
use Prim.Native.String.{String}
use mavlink_companion_log_se.Base.{
  ℕ, zero, suc, ◌/◌, List, [], ◌∷◌, Bool, true, false, ◌&&◌, not, ltb, if◌then◌else◌, length, take,
}
use mavlink_companion_log_se.Base.Int.{ℤ, pos}
use mavlink_companion_log_se.Types.{Text}
use mavlink_companion_log_se.DroneLogService.Companion.{FcLogEntry, FcLogsPage}
use mavlink_companion_log_se.CompanionApi.Json.{
  Json, null, bool, number, string, array, object, Items, nil, cons, Fields, end', field, put,
  codes, JsonLibrary,
}
use mavlink_companion_log_se.CompanionApi.Request.{is_empty}
use mavlink_companion_log_se.CompanionApi.Snapshot.{ServiceSnapshot}

pub record SerializedResponse : Type 0 where
  pub json : Text
  pub truncated : Bool

abbrev pub max_ids_per_request : ℕ
max_ids_per_request = 32

abbrev count : ℕ → Json
count n = number (pos n)

abbrev literal : String → Json
literal s = string (codes s)

-- A text, or null in place of an empty one.
unfoldable pub text_or_null : Text → Json
text_or_null s = if is_empty s then null else string s

unfoldable pub put_client : Text → Fields → Fields
put_client client r = if is_empty client then r else put "client" (string client) r

unfoldable pub base_response : ℤ → Bool → Bool → Text → Fields
unfolding put
base_response id ok truncated client =
    let r =
      field "v" (count 1)
        (field "id" (number id) (field "ok" (bool ok) (field "truncated" (bool truncated) end'))) in
    put_client client (if ok then put "err" null r else r)

-- A response with its `data`.
unfoldable pub with_data : Fields → Fields → Json
with_data data' r = object (put "data" (object data') r)

unfoldable pub status_data : ServiceSnapshot → Fields
status_data snap =
    let last_cycle = field "downloaded" (count snap.last_cycle_downloaded) (
      field "skipped" (count snap.last_cycle_skipped) (
        field "failed" (count snap.last_cycle_failed) (
          field "cancelled" (count snap.last_cycle_cancelled)
            (field "all_archived" (bool snap.last_cycle_all_archived) end')))) in
    let archive = field "active" (bool snap.archive_active) (
      field "current_log_id" (count snap.archive_current_log_id) (
        field "progress_bytes" (count snap.archive_progress_bytes) (
          field "progress_total_bytes" (count snap.archive_progress_total_bytes) (
            field "percent" (count snap.archive_percent) (
              field "bytes_per_sec" (count snap.archive_bytes_per_sec)
                (field "last_cycle" (object last_cycle) end')))))) in
    let recording = field "enabled" (bool snap.recording_enabled) (
      field "active" (bool snap.recording_active) (
        field "duration_sec" (count snap.recording_duration_sec) (
          field "free_bytes" (count snap.recording_free_bytes)
            (field "error" (text_or_null snap.recording_crash_reason) end')))) in
    field "service"
      (object (field "state" (string snap.state) (field "version" (string snap.version) end')))
      (field "link"
        (object (
          field "transport_connected" (bool snap.transport_connected)
            (field "heartbeat_fresh" (bool snap.heartbeat_fresh) end')))
        (field "vehicle"
          (object (
            field "detected" (bool snap.vehicle_detected)
              (field "armed" (bool snap.vehicle_armed) end')))
          (field "fc_logs"
            (object (
              field "count" (count snap.fc_logs_count)
                (field "stale" (bool snap.fc_logs_stale) end')))
            (field "archive" (object archive) (
              field "job"
                (object (
                  field "active" (bool (not (is_empty snap.job_type)))
                    (field "type" (text_or_null snap.job_type) end')))
                (field "storage"
                  (object (
                    field "used_bytes" (count snap.storage_used_bytes) (
                      field "limit_bytes" (count snap.storage_limit_bytes)
                        (field "archived_count" (count snap.storage_archived_count) end'))))
                  (field "recording" (object recording) end')))))))

-- What is left of the status if it is too long.
unfoldable pub minimal_data : ServiceSnapshot → Fields
minimal_data snap = field "service" (object (field "state" (string snap.state) end')) (
    field "archive"
      (object (
        field "active" (bool snap.archive_active) (
          field "progress_bytes" (count snap.archive_progress_bytes)
            (field "progress_total_bytes" (count snap.archive_progress_total_bytes) end'))))
      end')

unfoldable pub entry_items : List FcLogEntry → Items
entry_items [] = nil
entry_items (e ∷ es) =
    cons
      (object (
        field "id" (count e.id) (
          field "size" (count e.size)
            (field "t" (count e.time_utc) (field "dl" (bool e.downloaded) end')))))
      (entry_items es)

unfoldable pub fc_logs_response : ℤ → Text → FcLogsPage → Json
fc_logs_response id client page =
    with_data
      (field "count" (count page.count) (
        field "offset" (number page.offset) (
          field "stale" (bool page.stale)
            (field "entries" (array (entry_items page.entries)) end'))))
      (base_response id true page.truncated client)

unfoldable pub job_ack : ℤ → Bool → Text → Json
job_ack id already_running client =
    with_data (field "accepted" (bool true) (field "already_running" (bool already_running) end'))
      (base_response id true false client)

unfoldable pub id_items : List ℕ → Items
id_items [] = nil
id_items (id ∷ ids) = cons (count id) (id_items ids)

unfoldable pub download_ack : ℤ → ℕ → List ℕ → Text → Json
download_ack id queued not_found client =
    with_data
      (field "accepted" (bool true)
        (field "queued" (count queued) (field "not_found" (array (id_items not_found)) end')))
      (base_response id true false client)

unfoldable pub rec_ack : ℤ → Bool → Text → Json
rec_ack id active client =
    with_data (field "active" (bool active) end') (base_response id true false client)

unfoldable pub literals : List String → Items
literals [] = nil
literals (s ∷ ss) = cons (literal s) (literals ss)

unfoldable pub caps_data : ℕ → ℕ → ℕ → Fields
caps_data max_request_bytes max_response_bytes max_fc_logs = field "v" (count 1) (
    field "ops"
      (array (
        literals (
          "status" ∷ "fc.logs" ∷ "caps" ∷ "archive.start" ∷ "archive.cancel" ∷ "logs.refresh"
          ∷ "logs.download" ∷ "logs.erase" ∷ "rec.start" ∷ "rec.stop" ∷ [])))
      (field "limits"
        (object (
          field "max_request_bytes" (count max_request_bytes) (
            field "max_response_bytes" (count max_response_bytes) (
              field "max_fc_logs_per_response" (count max_fc_logs)
                (field "max_ids_per_request" (count max_ids_per_request) end')))))
        end'))

unfoldable pub error_response : ℤ → String → Text → Json
error_response id err client = object (
    put_client client (
      field "v" (count 1) (
        field "id" (number id) (
          field "ok" (bool false)
            (field "err" (literal err) (field "truncated" (bool false) end'))))))

unfoldable pub ack : ℤ → Bool → Text → Text → Json
ack id ok err client =
    let r = base_response id ok false client in
    object (if not ok && not (is_empty err) then put "err" (string err) r else r)

module _ (lib : JsonLibrary) where
  open lib use {dump}

  -- The empty text if the result is too long.
  unfoldable pub try_serialize : Json → ℕ → Text
  try_serialize obj max_bytes = let s = dump obj in if ltb max_bytes (length s) then [] else s

  unfoldable pub whole : Json → SerializedResponse
  whole r = record { json = dump r; truncated = false }

  unfoldable pub build_error : ℤ → String → Text → SerializedResponse
  build_error id err client = whole (error_response id err client)

  unfoldable pub build_status : ℤ → ServiceSnapshot → ℕ → Text → SerializedResponse
  build_status id snap max_bytes client =
      let s =
        try_serialize (with_data (status_data snap) (base_response id true false client))
          max_bytes in
      if is_empty s
      then record {
        json =
            try_serialize (with_data (minimal_data snap) (base_response id true true client))
              max_bytes;
        truncated = true;
      }
      else record { json = s; truncated = false }

  -- The ladder that halves the entries; the fuel is their number.
  unfoldable pub halve_entries : ℕ → ℤ → FcLogsPage → ℕ → Text → SerializedResponse
  halve_entries zero id reduced max_bytes client = build_error id "internal" client
  halve_entries (suc fuel) id reduced max_bytes client = elim reduced.entries [
    | [] ↦ build_error id "internal" client
    | e ∷ es ↦
        let half = record reduced { entries = take (length (e ∷ es) / 2) (e ∷ es) } in
        let s = try_serialize (fc_logs_response id client half) max_bytes in
        let rest = halve_entries fuel id half max_bytes client in
        if is_empty s then rest else record { json = s; truncated = true }
  ]

  unfoldable pub build_fc_logs : ℤ → FcLogsPage → ℕ → Text → SerializedResponse
  build_fc_logs id page max_bytes client =
      let s = try_serialize (fc_logs_response id client page) max_bytes in
      if is_empty s
      then halve_entries (length page.entries) id (record page { truncated = true }) max_bytes
          client
      else record { json = s; truncated = page.truncated }

  unfoldable pub build_caps : ℤ → ℕ → ℕ → ℕ → ℕ → Text → SerializedResponse
  build_caps id max_request_bytes max_response_bytes max_fc_logs max_bytes client =
      let r =
        with_data (caps_data max_request_bytes max_response_bytes max_fc_logs)
          (base_response id true false client) in
      let s = try_serialize r max_bytes in
      if is_empty s
      then build_error id "internal" client
      else record { json = s; truncated = false }
