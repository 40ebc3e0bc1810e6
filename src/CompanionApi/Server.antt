-- ===== src/CompanionApi/Server.antt =====
-- src/CompanionUdpServer.cpp: `handleRequest` and `respondToJobOutcome`, with the callbacks that the constructor of
-- src/DroneLogService.cpp passes. A datagram that is sent is a text. The settings are not negative.
use mavlink_companion_log_se.Base.{
  ℕ, List, [], Bool, true, false, ◌&&◌, not, ltb, Option, none, some, if◌then◌else◌, length,
}
use mavlink_companion_log_se.Base.Int.{pos, min_ℤ}
use mavlink_companion_log_se.Types.{Text, text_eq}
use mavlink_companion_log_se.Recorder.{
  World, Recorder, StartResult, started, already_recording, disabled, no_media, failed, start, stop,
}
use mavlink_companion_log_se.DroneLogService.Model.{Service, cancel_archive, request_cancel}
use mavlink_companion_log_se.DroneLogService.Companion.{
  JobKind, JobOutcome, accepted, already_running, armed, not_connected, not_found, push_command,
  request_companion_job, build_fc_logs_page,
}
use mavlink_companion_log_se.CompanionApi.Json.{JsonLibrary, codes}
use mavlink_companion_log_se.CompanionApi.Snapshot.{View, build_snapshot}
use mavlink_companion_log_se.CompanionApi.Request.{CompanionRequest, is_empty, parse_request}
use mavlink_companion_log_se.CompanionApi.Reply.{
  SerializedResponse, max_ids_per_request, job_ack, download_ack, rec_ack, whole, build_error,
  build_status, build_fc_logs, build_caps,
}

pub record CompanionSettings : Type 0 where
  pub token : Text
  pub max_request_bytes : ℕ
  pub max_response_bytes : ℕ
  pub max_fc_logs_per_response : ℕ

-- What the callbacks reach.
pub record Onboard : Type 0 where
  pub service : Service
  pub recorder : Recorder

pub data Op : Type 0 where
  status fc_logs caps archive_start logs_refresh logs_download logs_erase archive_cancel rec_start
        rec_stop unknown :
      Op

-- The operation that `op` names, in the order of the tests.
unfoldable pub op_of : Text → Op
op_of op =
    if text_eq op (codes "status")
    then status
    else if text_eq op (codes "fc.logs")
    then fc_logs
    else if text_eq op (codes "caps")
    then caps
    else if text_eq op (codes "archive.start")
    then archive_start
    else if text_eq op (codes "logs.refresh")
    then logs_refresh
    else if text_eq op (codes "logs.download")
    then logs_download
    else if text_eq op (codes "logs.erase")
    then logs_erase
    else if text_eq op (codes "archive.cancel")
    then archive_cancel
    else if text_eq op (codes "rec.start")
    then rec_start
    else if text_eq op (codes "rec.stop")
    then rec_stop
    else unknown

unfoldable pub is_mutating : Op → Bool
is_mutating status = false
is_mutating fc_logs = false
is_mutating caps = false
is_mutating unknown = false
is_mutating _ = true

unfoldable pub is_refused : CompanionSettings → CompanionRequest → Bool
is_refused cfg req =
    is_mutating (op_of req.op) && not (is_empty cfg.token) && not (text_eq req.token cfg.token)

module _ (lib : JsonLibrary) where
  -- The reply to a job.
  unfoldable pub respond_to_job_outcome : CompanionRequest → JobOutcome → SerializedResponse
  respond_to_job_outcome req o = elim o.result [
    | accepted ↦
        if text_eq req.op (codes "logs.download")
        then whole lib (download_ack req.id o.queued o.not_found_ids req.client)
        else whole lib (job_ack req.id false req.client)
    | already_running ↦ whole lib (job_ack req.id true req.client)
    | armed ↦ build_error lib req.id "armed" req.client
    | not_connected ↦ build_error lib req.id "not_connected" req.client
    | not_found ↦ build_error lib req.id "not_found" req.client
  ]

  unfoldable pub run_job :
      CompanionRequest → JobKind → List ℕ → Bool → Onboard → Onboard × SerializedResponse
  run_job req kind ids all st =
      let (s, o) = request_companion_job kind ids all st.service in
      (record st { service = s }, respond_to_job_outcome req o)

  unfoldable pub start_reply : CompanionRequest → StartResult → SerializedResponse
  start_reply req started = whole lib (rec_ack req.id true req.client)
  start_reply req already_recording = whole lib (rec_ack req.id true req.client)
  start_reply req disabled = build_error lib req.id "recording_disabled" req.client
  start_reply req no_media = build_error lib req.id "no_media" req.client
  start_reply req failed = build_error lib req.id "internal" req.client

  -- The branches on the operation, the request being let through.
  unfoldable pub dispatch :
      Op
      → CompanionSettings
      → View
      → World
      → CompanionRequest
      → Onboard
      → Onboard × SerializedResponse
  dispatch status cfg v w req st =
      let (r, snap) = build_snapshot v w st.service st.recorder in
      (record st { recorder = r }, build_status lib req.id snap cfg.max_response_bytes req.client)
  dispatch fc_logs cfg v w req st =
      let limit = min_ℤ req.limit (pos cfg.max_fc_logs_per_response) in
      let page = build_fc_logs_page req.offset limit st.service in
      (st, build_fc_logs lib req.id page cfg.max_response_bytes req.client)
  dispatch caps cfg v w req st = (
    st,
    build_caps lib req.id cfg.max_request_bytes cfg.max_response_bytes cfg.max_fc_logs_per_response
        cfg.max_response_bytes req.client,
  )
  dispatch archive_start cfg v w req st = run_job req JobKind.archive [] false st
  dispatch logs_refresh cfg v w req st = run_job req JobKind.refresh [] false st
  dispatch logs_download cfg v w req st =
      if not req.sel_all && is_empty req.sel_ids
      then (st, build_error lib req.id "bad_request" req.client)
      else if ltb max_ids_per_request (length req.sel_ids)
      then (st, build_error lib req.id "bad_request" req.client)
      else run_job req JobKind.download req.sel_ids req.sel_all st
  dispatch logs_erase cfg v w req st = run_job req JobKind.erase_all [] false st
  dispatch archive_cancel cfg v w req st = (
    record st { service = push_command cancel_archive (request_cancel st.service) },
    whole lib (job_ack req.id false req.client),
  )
  dispatch rec_start cfg v w req st =
      let (r, result) = start w st.recorder in (record st { recorder = r }, start_reply req result)
  dispatch rec_stop cfg v w req st =
      (record st { recorder = (stop w st.recorder).0 }, whole lib (rec_ack req.id false req.client))
  dispatch unknown cfg v w req st = (st, build_error lib req.id "bad_request" req.client)

  unfoldable pub answer_request :
      CompanionSettings → View → World → CompanionRequest → Onboard → Onboard × SerializedResponse
  answer_request cfg v w req st =
      if is_refused cfg req
      then (st, build_error lib req.id "bad_token" req.client)
      else dispatch (op_of req.op) cfg v w req st

  -- The state after a datagram, and the reply, if one is sent.
  unfoldable pub handle_request :
      CompanionSettings → View → World → Text → Onboard → Onboard × Option SerializedResponse
  handle_request cfg v w json_text st =
      if ltb cfg.max_request_bytes (length json_text)
      then (st, none)
      else elim (parse_request lib json_text) [
        | none ↦ (st, none)
        | some req ↦ let (st', resp) = answer_request cfg v w req st in (st', some resp)
      ]
