-- ===== src/CompanionApi/Examples.antt =====
-- Datagrams for a new service, with a library that takes a datagram for the name of its operation and prints a
-- document as one character for each of its values.
use text.Mathlib.Text.{◌==◌ as str_eq}
use mavlink_companion_log_se.Base.{
  if◌then◌else◌, ℕ, suc, ◌+◌, ◌≤◌, ◌<◌, ◌≡◌, [], ◌∷◌, true, false, none, some, length, replicate,
  arith, ◌⊎◌,
}
use mavlink_companion_log_se.Base.Int.{pos}
use mavlink_companion_log_se.Types.{Text, FcRereadMode}
use mavlink_companion_log_se.Database.{empty_database}
use mavlink_companion_log_se.Recorder.{World, new_recorder}
use mavlink_companion_log_se.DroneLogService.Model.{Config}
use mavlink_companion_log_se.DroneLogService.World.{new_service}
use mavlink_companion_log_se.DroneLogService.Companion.{FcLogsPage}
use mavlink_companion_log_se.CompanionApi.Json.{
  Json, null, bool, number, string, array, object, Items, nil, cons, Fields, end', field, codes,
  JsonLibrary,
}
use mavlink_companion_log_se.CompanionApi.Snapshot.{View, build_snapshot}
use mavlink_companion_log_se.CompanionApi.Reply.{build_status, build_fc_logs}
use mavlink_companion_log_se.CompanionApi.Server.{CompanionSettings, Onboard, handle_request}
use mavlink_companion_log_se.CompanionApi.Gate.{Asked, handle_request-Asked}
use mavlink_companion_log_se.CompanionApi.Budget.{Paged, build_status-le, build_fc_logs-Paged}

abbrev mutual
  weight : Json → ℕ
  weight null = 1
  weight (bool b) = 1
  weight (number n) = 1
  weight (string s) = 1
  weight (array xs) = suc (weight_items xs)
  weight (object fs) = suc (weight_fields fs)

  weight_items : Items → ℕ
  weight_items nil = 0
  weight_items (cons j xs) = weight j + weight_items xs

  weight_fields : Fields → ℕ
  weight_fields end' = 0
  weight_fields (field k j fs) = weight j + weight_fields fs

abbrev library : JsonLibrary
library = record {
  Value = Text;
  parse = λ s. some s;
  value_int = λ v k d. some d;
  value_text = λ v k d. if str_eq k "op" then some v else some d;
  value_bool = λ v k d. some d;
  contains = λ v k. false;
  at = λ v k. v;
  is_object = λ v. false;
  is_array = λ v. false;
  is_number_integer = λ v. false;
  is_number_unsigned = λ v. false;
  elements = λ v. [];
  get_int64 = λ v. pos 0;
  dump = λ j. replicate (weight j) 120;
}

abbrev config : Config
config = record {
  download = record {
    probe_bytes = 100;
    verify_after_download = true;
    verify_dataflash_parse = false;
    verify_fc_reread = FcRereadMode.none;
  };
  delay_after_disarm_sec = 5;
  erase_after_success = false;
  reconnect_on_transport_failure = true;
  reconnect_after_consecutive_failures = 3;
  max_size_gb = 1;
}

abbrev settings : CompanionSettings
settings = record {
  token = [];
  max_request_bytes = 2048;
  max_response_bytes = 1200;
  max_fc_logs_per_response = 8;
}

abbrev view : View
view = record {
  heartbeat_fresh = true;
  progress = record {
    active = false;
    log_id = 0;
    bytes_received = 0;
    total_bytes = 0;
    bytes_per_sec = 0;
  };
  stored_files = [];
  max_size_gb = 1;
}

abbrev world : World
world = record {
  exited = false;
  media_writable = true;
  spawned = some 7;
  now = 0;
  free_bytes = none;
}

abbrev onboard : Onboard
onboard = record {
  service = record (new_service empty_database) { connected = true };
  recorder = new_recorder true 3;
}

handle_request-Asked_example :
    let s' = (handle_request library settings view world (codes "logs.erase") onboard).0.service in
    (s' ≡ onboard.service) ⊎ Asked library config settings (codes "logs.erase") onboard.service s'
handle_request-Asked_example =
    handle_request-Asked library config settings view world (codes "logs.erase") onboard

abbrev page : FcLogsPage
page = record {
  count = 2;
  offset = pos 0;
  entries =
      record { id = 1; size = 10; time_utc = 0; downloaded = false }
      ∷ record { id = 2; size = 20; time_utc = 0; downloaded = true }
      ∷ [];
  truncated = false;
  stale = false;
}

weight-pos : (j : Json) → 0 < length (replicate {A = ℕ} (weight j) 120)
weight-pos null = omega arith
weight-pos (bool b) = omega arith
weight-pos (number n) = omega arith
weight-pos (string s) = omega arith
weight-pos (array xs) = omega arith
weight-pos (object fs) = omega arith

build_fc_logs-Paged_example :
    Paged library (pos 5) page 14 [] (build_fc_logs library (pos 5) page 14 [])
build_fc_logs-Paged_example = build_fc_logs-Paged library weight-pos (pos 5) page 14 []

build_status-le_example :
    length
      (build_status library
        (pos 5)
        (build_snapshot view world onboard.service onboard.recorder).1
        1200
        []).json
    ≤ 1200
build_status-le_example =
    build_status-le library (pos 5) (build_snapshot view world onboard.service onboard.recorder).1
      1200 []
