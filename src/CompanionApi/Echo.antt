-- ===== src/CompanionApi/Echo.antt =====
-- Whom a reply is for: the id and the client of the request.
use Prim.Native.String.{String}
use text.Mathlib.Text.{◌==◌ as str_eq}
use text.Mathlib.TextEquality.{eq_iff}
use mavlink_companion_log_se.Base.{
  ℕ, zero, suc, ◌/◌, ◌≡◌, refl, sym, ◌∙◌, List, [], ◌∷◌, Bool, true, false, ltb, none, some,
  if◌then◌else◌, length, take, arith, ◌<◌, Bool-cases, inl, inr, ◌⊎◌,
}
use mavlink_companion_log_se.Base.Int.{ℤ, pos}
use mavlink_companion_log_se.Types.{Text, text_eq}
use mavlink_companion_log_se.Recorder.{
  StartResult, started, already_recording, disabled, no_media, failed,
}
use mavlink_companion_log_se.DroneLogService.Companion.{
  FcLogEntry, FcLogsPage, JobStart, JobOutcome, accepted, already_running, armed, not_connected,
  not_found,
}
use mavlink_companion_log_se.CompanionApi.Json.{
  Json, bool, number, string, array, codes, object, Fields, end', field, put, find, JsonLibrary,
}
use mavlink_companion_log_se.CompanionApi.Snapshot.{ServiceSnapshot}
use mavlink_companion_log_se.CompanionApi.Request.{CompanionRequest, is_empty}
use mavlink_companion_log_se.CompanionApi.Reply.{
  SerializedResponse, put_client, base_response, with_data, error_response, try_serialize, whole,
  build_error, build_status, halve_entries, build_fc_logs, build_caps, status_data, minimal_data,
  caps_data, entry_items, fc_logs_response, job_ack, download_ack, rec_ack,
}
use mavlink_companion_log_se.CompanionApi.Server.{respond_to_job_outcome, start_reply}

-- A reply with the id of the request, and its client, if it has one.
abbrev pub Echoes : JsonLibrary → ℤ → Text → SerializedResponse → Type 0
Echoes lib id client r =
    (fs : Fields) × (r.json ≡ lib.dump (object fs))
    × (find "id" fs ≡ some (number id))
    × (find "client" fs ≡ (if is_empty client then none else some (string client)))

-- The same, or no text at all, since the one that was to be sent is beyond the budget.
abbrev pub EchoesOrUnfit : JsonLibrary → ℤ → Text → Json → ℕ → SerializedResponse → Type 0
EchoesOrUnfit lib id client j max_bytes r =
    ((r.json ≡ []) × (max_bytes < length (lib.dump j))) ⊎ Echoes lib id client r

find-put :
    (k j : String) (v : Json) (fs : Fields)
    → find j (put k v fs) ≡ (if str_eq k j then some v else find j fs)
unfolding find put
find-put k j v end' = refl
find-put k j v (field i w fs) =
    ground (arith, eq_iff k j, eq_iff i k, eq_iff i j, find-put k j v fs)

-- The fields of every response but an error.
base_response_lem :
    (id : ℤ) (ok truncated : Bool) (client : Text)
    → (find "id" (base_response id ok truncated client) ≡ some (number id))
      × (find "client" (base_response id ok truncated client)
          ≡ (if is_empty client then none else some (string client)))
unfolding base_response put_client find put
base_response_lem id true truncated [] = (refl, refl)
base_response_lem id true truncated (c ∷ cs) = (refl, refl)
base_response_lem id false truncated [] = (refl, refl)
base_response_lem id false truncated (c ∷ cs) = (refl, refl)

module _ (lib : JsonLibrary) (id : ℤ) (client : Text) where
  pub data-Echoes :
      (d : Fields) (truncated : Bool) (b : Bool)
      → Echoes lib id client (record {
        json = lib.dump (with_data d (base_response id true truncated client));
        truncated = b;
      })
  unfolding with_data
  data-Echoes d truncated b =
      let (has_id, has_client) = base_response_lem id true truncated client in
      (
        put "data" (object d) (base_response id true truncated client),
        refl,
        find-put "data" "id" (object d) (base_response id true truncated client) ∙ has_id,
        find-put "data" "client" (object d) (base_response id true truncated client) ∙ has_client,
      )

  pub error-Echoes : (err : String) → Echoes lib id client (build_error lib id err client)
  unfolding build_error whole error_response put_client find put
  error-Echoes err = by_client client
    where
      by_client : (c : Text) → Echoes lib id c (build_error lib id err c)
      by_client [] = (_, refl, refl, refl)
      by_client (c ∷ cs) = (_, refl, refl, refl)

  -- A text that is printed if it fits, and else empty.
  try-Echoes :
      (d : Fields) (truncated : Bool) (max_bytes : ℕ) (b : Bool)
      → let j = with_data d (base_response id true truncated client) in
        EchoesOrUnfit lib id client j max_bytes
          (record { json = try_serialize lib j max_bytes; truncated = b })
  unfolding try_serialize
  try-Echoes d truncated max_bytes b =
      let j = with_data d (base_response id true truncated client) in
      elim (Bool-cases (ltb max_bytes (length (lib.dump j)))) [
        | inl over ↦ rw over (inl (refl, ground arith))
        | inr fits ↦ rw fits (inr (data-Echoes d truncated b))
      ]

  Echoes-if :
      (b : Bool) (x y : SerializedResponse)
      → Echoes lib id client x
      → Echoes lib id client y
      → Echoes lib id client (if b then x else y)
  Echoes-if true x y p q = p
  Echoes-if false x y p q = q

  -- The text that is sent, with a fallback if it is empty.
  unless_empty-Echoes :
      (json : Text) (j : Json) (max_bytes : ℕ) (x y : SerializedResponse)
      → y.json ≡ json
      → Echoes lib id client x
      → EchoesOrUnfit lib id client j max_bytes y
      → Echoes lib id client (if is_empty json then x else y)
  unless_empty-Echoes [] j max_bytes x y e p q = p
  unless_empty-Echoes (c ∷ cs) j max_bytes x y e p (inl gone) = absurd (cc (sym e ∙ gone.0))
  unless_empty-Echoes (c ∷ cs) j max_bytes x y e p (inr q) = q

  unless_empty-Unfit :
      (json : Text) (i j : Json) (max_bytes : ℕ) (x y : SerializedResponse)
      → y.json ≡ json
      → EchoesOrUnfit lib id client i max_bytes x
      → EchoesOrUnfit lib id client j max_bytes y
      → EchoesOrUnfit lib id client i max_bytes (if is_empty json then x else y)
  unless_empty-Unfit [] i j max_bytes x y e p q = p
  unless_empty-Unfit (c ∷ cs) i j max_bytes x y e p (inl gone) = absurd (cc (sym e ∙ gone.0))
  unless_empty-Unfit (c ∷ cs) i j max_bytes x y e p (inr q) = inr q

  pub build_status-Echoes :
      (snap : ServiceSnapshot) (max_bytes : ℕ)
      → EchoesOrUnfit lib id client
          (with_data (minimal_data snap) (base_response id true true client))
          max_bytes
          (build_status lib id snap max_bytes client)
  unfolding build_status
  build_status-Echoes snap max_bytes =
      let least = with_data (minimal_data snap) (base_response id true true client) in
      let whole_status = with_data (status_data snap) (base_response id true false client) in
      unless_empty-Unfit (try_serialize lib whole_status max_bytes) least whole_status max_bytes
        (record { json = try_serialize lib least max_bytes; truncated = true })
        (record { json = try_serialize lib whole_status max_bytes; truncated = false }) refl
        (try-Echoes (minimal_data snap) true max_bytes true)
        (try-Echoes (status_data snap) false max_bytes false)

  pub build_caps-Echoes :
      (a b c max_bytes : ℕ) → Echoes lib id client (build_caps lib id a b c max_bytes client)
  unfolding build_caps
  build_caps-Echoes a b c max_bytes =
      unless_empty-Echoes
        (try_serialize lib (with_data (caps_data a b c) (base_response id true false client))
          max_bytes)
        (with_data (caps_data a b c) (base_response id true false client)) max_bytes
        (build_error lib id "internal" client)
        (record {
          json =
              try_serialize lib (with_data (caps_data a b c) (base_response id true false client))
                max_bytes;
          truncated = false;
        })
        refl (error-Echoes "internal") (try-Echoes (caps_data a b c) false max_bytes false)

  page_data : FcLogsPage → Fields
  page_data page = field "count" (number (pos page.count)) (
      field "offset" (number page.offset)
        (field "stale" (bool page.stale) (field "entries" (array (entry_items page.entries)) end')))

  page-Echoes :
      (page : FcLogsPage) (max_bytes : ℕ) (b : Bool)
      → EchoesOrUnfit lib id client (fc_logs_response id client page) max_bytes (record {
        json = try_serialize lib (fc_logs_response id client page) max_bytes;
        truncated = b;
      })
  unfolding fc_logs_response page_data
  page-Echoes page max_bytes b = try-Echoes (page_data page) page.truncated max_bytes b

  halve_entries-Echoes :
      (fuel : ℕ) (page : FcLogsPage) (max_bytes : ℕ)
      → Echoes lib id client (halve_entries lib fuel id page max_bytes client)
  unfolding halve_entries
  halve_entries-Echoes zero page max_bytes = error-Echoes "internal"
  halve_entries-Echoes (suc fuel) page max_bytes =
      by_entries page.entries (λ half. halve_entries-Echoes fuel half max_bytes)
    where
      by_entries :
          (es : List FcLogEntry)
          → ((half : FcLogsPage)
              → Echoes lib id client (halve_entries lib fuel id half max_bytes client))
          → Echoes lib id client (elim es [
            | [] ↦ build_error lib id "internal" client
            | e ∷ es ↦
                let half = record page { entries = take (length (e ∷ es) / 2) (e ∷ es) } in
                let s = try_serialize lib (fc_logs_response id client half) max_bytes in
                let rest = halve_entries lib fuel id half max_bytes client in
                if is_empty s then rest else record { json = s; truncated = true }
          ])
      by_entries [] rest = error-Echoes "internal"
      by_entries (e ∷ es) rest =
          let half = record page { entries = take (length (e ∷ es) / 2) (e ∷ es) } in
          unless_empty-Echoes (try_serialize lib (fc_logs_response id client half) max_bytes)
            (fc_logs_response id client half) max_bytes
            (halve_entries lib fuel id half max_bytes client)
            (record {
              json = try_serialize lib (fc_logs_response id client half) max_bytes;
              truncated = true;
            })
            refl (rest half) (page-Echoes half max_bytes true)

  pub build_fc_logs-Echoes :
      (page : FcLogsPage) (max_bytes : ℕ)
      → Echoes lib id client (build_fc_logs lib id page max_bytes client)
  unfolding build_fc_logs
  build_fc_logs-Echoes page max_bytes =
      unless_empty-Echoes (try_serialize lib (fc_logs_response id client page) max_bytes)
        (fc_logs_response id client page) max_bytes
        (halve_entries lib (length page.entries) id (record page { truncated = true }) max_bytes
          client)
        (record {
          json = try_serialize lib (fc_logs_response id client page) max_bytes;
          truncated = page.truncated;
        })
        refl
        (halve_entries-Echoes (length page.entries) (record page { truncated = true }) max_bytes)
        (page-Echoes page max_bytes page.truncated)

module _ (lib : JsonLibrary) where
  pub outcome-Echoes :
      (req : CompanionRequest) (o : JobOutcome)
      → Echoes lib req.id req.client (respond_to_job_outcome lib req o)
  unfolding respond_to_job_outcome whole job_ack download_ack
  outcome-Echoes req o = by_result o.result
    where
      by_result :
          (r : JobStart)
          → Echoes lib req.id req.client (elim r [
            | accepted ↦
                if text_eq req.op (codes "logs.download")
                then whole lib (download_ack req.id o.queued o.not_found_ids req.client)
                else whole lib (job_ack req.id false req.client)
            | already_running ↦ whole lib (job_ack req.id true req.client)
            | armed ↦ build_error lib req.id "armed" req.client
            | not_connected ↦ build_error lib req.id "not_connected" req.client
            | not_found ↦ build_error lib req.id "not_found" req.client
          ])
      by_result accepted =
          Echoes-if lib req.id req.client (text_eq req.op (codes "logs.download"))
            (whole lib (download_ack req.id o.queued o.not_found_ids req.client))
            (whole lib (job_ack req.id false req.client))
            (data-Echoes lib req.id req.client _ false false)
            (data-Echoes lib req.id req.client _ false false)
      by_result already_running = data-Echoes lib req.id req.client _ false false
      by_result armed = error-Echoes lib req.id req.client "armed"
      by_result not_connected = error-Echoes lib req.id req.client "not_connected"
      by_result not_found = error-Echoes lib req.id req.client "not_found"

  pub start-Echoes :
      (req : CompanionRequest) (r : StartResult)
      → Echoes lib req.id req.client (start_reply lib req r)
  unfolding start_reply whole rec_ack
  start-Echoes req started = data-Echoes lib req.id req.client _ false false
  start-Echoes req already_recording = data-Echoes lib req.id req.client _ false false
  start-Echoes req disabled = error-Echoes lib req.id req.client "recording_disabled"
  start-Echoes req no_media = error-Echoes lib req.id req.client "no_media"
  start-Echoes req failed = error-Echoes lib req.id req.client "internal"
