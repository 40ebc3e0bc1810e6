-- ===== src/Configuration/Settings.antt =====
-- What a table of the configuration file sets, key by key.
use Prim.Native.String.{String}
use mavlink_companion_log_se.Base.{
  ◌^◌, ◌<◌, ◌≡◌, ◌⊎◌, refl, sym, List, [], ◌∷◌, Bool, Option, none, some, arith, inl, inr,
}
use mavlink_companion_log_se.Base.Int.{ℤ, pos, negsuc}
use mavlink_companion_log_se.Types.{Text}
use mavlink_companion_log_se.Configuration.{to_int, or_keep, int_or_keep}
use mavlink_companion_log_se.Configuration.Sections.{
  TransportSection, DownloadSection, StorageSection, LoggingSection, CompanionSection,
  RecordingSection,
}

-- A key with its value and the one that it has without the file; or a key that the file must not set.
pub data Setting (D : Type 0) : Type 0 where
  text_set : String → Text → Text → Setting D
  int_set : String → ℤ → ℤ → Setting D
  bool_set : String → Bool → Bool → Setting D
  double_set : String → D → D → Setting D
  unset : String → Setting D

-- A value of 32 bits.
abbrev pub IsInt : ℤ → Type 0
IsInt (pos n) = n < 2 ^ 31
IsInt (negsuc n) = n < 2 ^ 31

-- The key is set to the value, or it is left out and the value is the old one.
abbrev pub Says : {A : Type 0} → Option A → A → A → Type 0
Says found new old = (found ≡ some new) ⊎ ((found ≡ none) × (new ≡ old))

to_int-IsInt : (n : ℤ) → IsInt n → to_int n ≡ n
unfolding to_int
to_int-IsInt (pos n) h = ground arith
to_int-IsInt (negsuc n) h = ground arith

pub or_keep-Says :
    {A : Type 0} (found : Option A) (new old : A) → Says found new old → or_keep found old ≡ new
unfolding or_keep
or_keep-Says found new old (inl e) = rw e refl
or_keep-Says found new old (inr (e, same)) = rw e (sym same)

pub int_or_keep-Says :
    (found : Option ℤ) (new old : ℤ) → IsInt new → Says found new old → int_or_keep found old ≡ new
unfolding int_or_keep
int_or_keep-Says found new old h (inl e) = rw e (to_int-IsInt new h)
int_or_keep-Says found new old h (inr (e, same)) = rw e (sym same)

abbrev pub transport_settings :
    {D : Type 0} → TransportSection → TransportSection → List (Setting D)
transport_settings c old =
    text_set "transport" c.transport old.transport
    ∷ text_set "host" c.host old.host
    ∷ int_set "port" c.port old.port
    ∷ text_set "bind_host" c.bind_host old.bind_host
    ∷ int_set "bind_port" c.bind_port old.bind_port
    ∷ int_set "heartbeat_timeout_sec" c.heartbeat_timeout_sec old.heartbeat_timeout_sec
    ∷ []

abbrev pub download_settings :
    {D : Type 0} → DownloadSection D → DownloadSection D → List (Setting D)
download_settings c old =
    unset "delay_after_disarm"
    ∷ int_set "delay_after_disarm_sec" c.delay_after_disarm_sec old.delay_after_disarm_sec
    ∷ int_set "enumerate_attempts" c.enumerate_attempts old.enumerate_attempts
    ∷ int_set "enumerate_retry_delay_sec" c.enumerate_retry_delay_sec old.enumerate_retry_delay_sec
    ∷ int_set "download_timeout" c.download_timeout_sec old.download_timeout_sec
    ∷ int_set "retry_count" c.retry_count old.retry_count
    ∷ int_set "retry_delay" c.retry_delay_sec old.retry_delay_sec
    ∷ int_set "probe_bytes" c.probe_bytes old.probe_bytes
    ∷ bool_set "verify_after_download" c.verify_after_download old.verify_after_download
    ∷ bool_set "erase_after_success" c.erase_after_success old.erase_after_success
    ∷ int_set "stall_abort_attempts" c.stall_abort_attempts old.stall_abort_attempts
    ∷ int_set "fc_busy_retry_attempts" c.fc_busy_retry_attempts old.fc_busy_retry_attempts
    ∷ int_set "fc_busy_retry_delay_sec" c.fc_busy_retry_delay_sec old.fc_busy_retry_delay_sec
    ∷ int_set "max_queued_log_data" c.max_queued_log_data old.max_queued_log_data
    ∷ bool_set "reconnect_on_transport_failure" c.reconnect_on_transport_failure
        old.reconnect_on_transport_failure
    ∷ int_set "reconnect_after_consecutive_failures" c.reconnect_after_consecutive_failures
        old.reconnect_after_consecutive_failures
    ∷ int_set "gap_fill_idle_ms" c.gap_fill_idle_ms old.gap_fill_idle_ms
    ∷ bool_set "verify_dataflash_parse" c.verify_dataflash_parse old.verify_dataflash_parse
    ∷ double_set "verify_max_bad_header_ratio" c.verify_max_bad_header_ratio
        old.verify_max_bad_header_ratio
    ∷ bool_set "detect_overlap_conflict" c.detect_overlap_conflict old.detect_overlap_conflict
    ∷ text_set "verify_fc_reread" c.verify_fc_reread old.verify_fc_reread
    ∷ int_set "verify_fc_reread_sample_count" c.verify_fc_reread_sample_count
        old.verify_fc_reread_sample_count
    ∷ bool_set "benchmark_download" c.benchmark_download old.benchmark_download
    ∷ []

abbrev pub storage_settings : {D : Type 0} → StorageSection → StorageSection → List (Setting D)
storage_settings c old =
    text_set "directory" c.directory old.directory
    ∷ int_set "max_size_gb" c.max_size_gb old.max_size_gb
    ∷ []

abbrev pub logging_settings : {D : Type 0} → LoggingSection → LoggingSection → List (Setting D)
logging_settings c old =
    bool_set "verbose" c.verbose old.verbose ∷ text_set "file" c.file old.file ∷ []

abbrev pub companion_settings :
    {D : Type 0} → CompanionSection → CompanionSection → List (Setting D)
companion_settings c old =
    bool_set "enabled" c.enabled old.enabled
    ∷ text_set "bind_host" c.bind_host old.bind_host
    ∷ int_set "bind_port" c.bind_port old.bind_port
    ∷ text_set "send_host" c.send_host old.send_host
    ∷ int_set "send_port" c.send_port old.send_port
    ∷ text_set "token" c.token old.token
    ∷ int_set "max_request_bytes" c.max_request_bytes old.max_request_bytes
    ∷ int_set "max_response_bytes" c.max_response_bytes old.max_response_bytes
    ∷ int_set "max_fc_logs_per_response" c.max_fc_logs_per_response old.max_fc_logs_per_response
    ∷ int_set "udp_proxy_keepalive_ms" c.udp_proxy_keepalive_ms old.udp_proxy_keepalive_ms
    ∷ []

abbrev pub recording_settings :
    {D : Type 0} → RecordingSection → RecordingSection → List (Setting D)
recording_settings c old =
    bool_set "enabled" c.enabled old.enabled
    ∷ text_set "mount_path" c.mount_path old.mount_path
    ∷ int_set "source_port" c.source_port old.source_port
    ∷ int_set "rtp_payload_type" c.rtp_payload_type old.rtp_payload_type
    ∷ text_set "filename_prefix" c.filename_prefix old.filename_prefix
    ∷ text_set "gst_launch_path" c.gst_launch_path old.gst_launch_path
    ∷ int_set "fsync_interval_sec" c.fsync_interval_sec old.fsync_interval_sec
    ∷ []
