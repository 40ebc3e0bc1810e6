-- ===== src/CompanionApi/Gate.antt =====
-- What a datagram can change.
use mavlink_companion_log_se.Base.{
  ℕ, ◌≤◌, ◌≡◌, refl, ap, List, [], ◌∷◌, Bool, true, false, ◌&&◌, not, ltb, Option, none, some,
  if◌then◌else◌, length, arith, Bool-cases, Option-cases, inl, inr, ◌⊎◌,
}
use mavlink_companion_log_se.Types.{Text, eq_of_text_eq}
use mavlink_companion_log_se.Recorder.{World}
use mavlink_companion_log_se.DroneLogService.Model.{Config, Service}
use mavlink_companion_log_se.DroneLogService.World.{
  Action, request_job, request_archive_cancel, perform,
}
use mavlink_companion_log_se.DroneLogService.Companion.{JobKind}
use mavlink_companion_log_se.CompanionApi.Json.{JsonLibrary}
use mavlink_companion_log_se.CompanionApi.Snapshot.{View}
use mavlink_companion_log_se.CompanionApi.Request.{CompanionRequest, is_empty, parse_request}
use mavlink_companion_log_se.CompanionApi.Reply.{
  SerializedResponse, build_error, max_ids_per_request,
}
use mavlink_companion_log_se.CompanionApi.Server.{
  CompanionSettings, Onboard, Op, status, fc_logs, caps, archive_start, logs_refresh, logs_download,
  logs_erase, archive_cancel, rec_start, rec_stop, unknown, op_of, is_mutating, is_refused, run_job,
  dispatch, answer_request, handle_request,
}

-- The action of the companion's thread that a request asks for; none for an operation that only reads, and for the
-- recorder, which is not the service's.
abbrev pub action_of : Op → CompanionRequest → Option Action
action_of archive_start req = some (request_job JobKind.archive [] false)
action_of logs_refresh req = some (request_job JobKind.refresh [] false)
action_of logs_download req = some (request_job JobKind.download req.sel_ids req.sel_all)
action_of logs_erase req = some (request_job JobKind.erase_all [] false)
action_of archive_cancel req = some request_archive_cancel
action_of _ req = none

-- The service has performed the action of the operation.
pub record Acted (c : Config) (op : Op) (req : CompanionRequest) (s s' : Service) : Type 0 where
  pub action : Action
  pub named : action_of op req ≡ some action
  pub done : s' ≡ perform c action s

-- A request that was let through has brought it about.
pub record Asked (lib : JsonLibrary) (c : Config) (cfg : CompanionSettings) (json_text : Text)
    (s s' : Service) : Type 0 where
  pub req : CompanionRequest
  pub fits : length json_text ≤ cfg.max_request_bytes
  pub parsed : parse_request lib json_text ≡ some req
  pub mutating : is_mutating (op_of req.op) ≡ true
  pub token : (cfg.token ≡ []) ⊎ (req.token ≡ cfg.token)
  pub acted : Acted c (op_of req.op) req s s'

eq_of_is_empty : (s : Text) → is_empty s ≡ true → s ≡ []
eq_of_is_empty [] e = refl
eq_of_is_empty (x ∷ xs) e = absurd (cc e)

module _ (lib : JsonLibrary) (c : Config) (cfg : CompanionSettings) (v : View) (w : World) where
  -- Each operation leaves the service as it is, or is a mutating one and one action.
  abbrev Effect : Op → CompanionRequest → Onboard → Onboard × SerializedResponse → Type 0
  Effect op req st r =
      (r.0.service ≡ st.service) ⊎ ((is_mutating op ≡ true) × Acted c op req st.service r.0.service)

  run_job-Acted :
      (op : Op) (req : CompanionRequest) (kind : JobKind) (ids : List ℕ) (all : Bool) (st : Onboard)
      → action_of op req ≡ some (request_job kind ids all)
      → Acted c op req st.service (run_job lib req kind ids all st).0.service
  unfolding run_job perform
  run_job-Acted op req kind ids all st e = record {
    action = request_job kind ids all;
    named = e;
    done = refl;
  }

  download-Effect :
      (req : CompanionRequest) (st : Onboard) (x y : Bool) (e : Onboard × SerializedResponse)
      → e.0 ≡ st
      → Effect logs_download req st (
          if x
          then e
          else if y
          then e
          else run_job lib req JobKind.download req.sel_ids req.sel_all st)
  unfolding is_mutating
  download-Effect req st true y e same = inl (ap (λ o. o.service) same)
  download-Effect req st false true e same = inl (ap (λ o. o.service) same)
  download-Effect req st false false e same =
      inr (refl, run_job-Acted logs_download req JobKind.download req.sel_ids req.sel_all st refl)

  dispatch-Effect :
      (op : Op) (req : CompanionRequest) (st : Onboard)
      → Effect op req st (dispatch lib op cfg v w req st)
  unfolding dispatch is_mutating perform
  dispatch-Effect status req st = inl refl
  dispatch-Effect fc_logs req st = inl refl
  dispatch-Effect caps req st = inl refl
  dispatch-Effect archive_start req st =
      inr (refl, run_job-Acted archive_start req JobKind.archive [] false st refl)
  dispatch-Effect logs_refresh req st =
      inr (refl, run_job-Acted logs_refresh req JobKind.refresh [] false st refl)
  dispatch-Effect logs_download req st =
      download-Effect req st (not req.sel_all && is_empty req.sel_ids)
        (ltb max_ids_per_request (length req.sel_ids))
        (st, build_error lib req.id "bad_request" req.client) refl
  dispatch-Effect logs_erase req st =
      inr (refl, run_job-Acted logs_erase req JobKind.erase_all [] false st refl)
  dispatch-Effect archive_cancel req st =
      inr (refl, record { action = request_archive_cancel; named = refl; done = refl })
  dispatch-Effect rec_start req st = inl refl
  dispatch-Effect rec_stop req st = inl refl
  dispatch-Effect unknown req st = inl refl

  token_of :
      (req : CompanionRequest)
      → is_refused cfg req ≡ false
      → is_mutating (op_of req.op) ≡ true
      → (cfg.token ≡ []) ⊎ (req.token ≡ cfg.token)
  unfolding is_refused
  token_of req let_through mutating = elim (Bool-cases (is_empty cfg.token)) [
    | inl none_set ↦ inl (eq_of_is_empty cfg.token none_set)
    | inr is_set ↦ inr (eq_of_text_eq req.token cfg.token (ground (arith, mutating)))
  ]

  -- A datagram that changes the service is a request that fits the limit, was parsed, names a mutating operation,
  -- and carries the configured token, if there is one. What it does is the one action that its operation stands
  -- for, a request for the job with its selection or the cancel, as the services that can be reached take it.
  pub handle_request-Asked :
      (json_text : Text) (st : Onboard)
      → let s' = (handle_request lib cfg v w json_text st).0.service in
        (s' ≡ st.service) ⊎ Asked lib c cfg json_text st.service s'
  unfolding handle_request answer_request
  handle_request-Asked json_text st =
      elim (Bool-cases (ltb cfg.max_request_bytes (length json_text))) [
        | inl too_long ↦ rw too_long (inl refl)
        | inr fits ↦ rw fits (elim (Option-cases (parse_request lib json_text)) [
          | inl garbage ↦ rw garbage (inl refl)
          | inr (req, parsed) ↦ rw parsed (elim (Bool-cases (is_refused cfg req)) [
            | inl refused ↦ rw refused (inl refl)
            | inr let_through ↦ rw let_through (elim (dispatch-Effect (op_of req.op) req st) [
              | inl same ↦ inl same
              | inr (mutating, acted) ↦ inr (record {
                req = req;
                fits = ground arith;
                parsed = parsed;
                mutating = mutating;
                token = token_of req let_through mutating;
                acted = acted;
              })
            ])
          ])
        ])
      ]
