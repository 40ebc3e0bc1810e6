-- ===== src/CompanionApi/Answer.antt =====
-- When a datagram is answered, and by what.
use mavlink_companion_log_se.Base.{◌≤◌, ◌<◌, ◌≡◌, [], true, Option, none, some, length, ◌⊎◌}
use mavlink_companion_log_se.Types.{Text}
use mavlink_companion_log_se.Recorder.{World}
use mavlink_companion_log_se.CompanionApi.Json.{Json, JsonLibrary}
use mavlink_companion_log_se.CompanionApi.Snapshot.{View, build_snapshot}
use mavlink_companion_log_se.CompanionApi.Request.{CompanionRequest, parse_request}
use mavlink_companion_log_se.CompanionApi.Reply.{
  SerializedResponse, with_data, base_response, minimal_data,
}
use mavlink_companion_log_se.CompanionApi.Server.{CompanionSettings, Onboard, status, op_of}
use mavlink_companion_log_se.CompanionApi.Echo.{Echoes}

-- The least form of the status in answer to a request.
abbrev pub least_status : View → World → Onboard → CompanionRequest → Json
least_status v w st req =
    with_data (minimal_data (build_snapshot v w st.service st.recorder).1)
      (base_response req.id true true req.client)

-- A reply with the request's id and client; or the request is for the status, and not even its least form fits.
abbrev pub Replied :
    JsonLibrary
    → CompanionSettings
    → View
    → World
    → Onboard
    → CompanionRequest
    → SerializedResponse
    → Type 0
Replied lib cfg v w st req r =
    Echoes lib req.id req.client r
    ⊎ ((op_of req.op ≡ status)
        × (r.json ≡ [])
        × (cfg.max_response_bytes < length (lib.dump (least_status v w st req))))

-- No reply, and then the datagram is too long or not a request; or a reply.
pub data Answered (lib : JsonLibrary) (cfg : CompanionSettings) (v : View) (w : World)
    (json_text : Text) (st : Onboard) (o : Option SerializedResponse) : Type 0 where
  silent :
      o ≡ none
      → (cfg.max_request_bytes < length json_text) ⊎ (parse_request lib json_text ≡ none)
      → Answered lib cfg v w json_text st o
  replied :
      (req : CompanionRequest) (r : SerializedResponse)
      → o ≡ some r
      → length json_text ≤ cfg.max_request_bytes
      → parse_request lib json_text ≡ some req
      → Replied lib cfg v w st req r
      → Answered lib cfg v w json_text st o
