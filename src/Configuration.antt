-- ===== src/Configuration.antt =====
-- src/Config.cpp and include/mcls/Config.hpp: the configuration file. The TOML library (toml++) is an argument: what
-- it finds at a key of a table, read as a text, an integer of 64 bits, a truth value, a floating-point number or
-- a table. On a file that does not parse it throws, which leaves no configuration. An `int` is a signed number.
pub mod Settings
pub mod Sections
pub mod Written
pub mod Loaded
mod Examples
use mavlink_companion_log_se.Base.{
  ◌-◌, ◌%◌, ◌^◌, Bool, true, false, ltb, Option, none, some, if◌then◌else◌,
}
use mavlink_companion_log_se.Base.Int.{ℤ, pos, negsuc}
use mavlink_companion_log_se.Types.{Text, text_eq, FcRereadMode}
use mavlink_companion_log_se.CompanionApi.Json.{codes}
use mavlink_companion_log_se.Configuration.Sections.{
  CompanionSection, DownloadSection, LoadedConfig, LoggingSection, RecordingSection, StorageSection,
  Toml, TransportSection, default_config,
}

-- `static_cast<int>` of 64 bits: the low 32 bits, read as signed.
unfoldable pub to_int : ℤ → ℤ
to_int (pos n) = let r = n % 2 ^ 32 in if ltb r (2 ^ 31) then pos r else negsuc (2 ^ 32 - 1 - r)
to_int (negsuc n) = let r = n % 2 ^ 32 in if ltb r (2 ^ 31) then negsuc r else pos (2 ^ 32 - 1 - r)

-- A key that the table has replaces the setting.
unfoldable pub or_keep : {A : Type 0} → Option A → A → A
or_keep none old = old
or_keep (some new) old = new

unfoldable pub int_or_keep : Option ℤ → ℤ → ℤ
int_or_keep none old = old
int_or_keep (some new) old = to_int new

module _ {Table D : Type 0} (toml : Toml Table D) where
  unfoldable pub load_transport : Table → TransportSection → TransportSection
  load_transport t out = record {
    transport = or_keep (toml.text_at t "transport") out.transport;
    host = or_keep (toml.text_at t "host") out.host;
    port = int_or_keep (toml.int_at t "port") out.port;
    bind_host = or_keep (toml.text_at t "bind_host") out.bind_host;
    bind_port = int_or_keep (toml.int_at t "bind_port") out.bind_port;
    heartbeat_timeout_sec =
        int_or_keep (toml.int_at t "heartbeat_timeout_sec") out.heartbeat_timeout_sec;
  }

  unfoldable pub load_download : Table → DownloadSection D → DownloadSection D
  load_download t out = record {
    delay_after_disarm_sec =
        int_or_keep (toml.int_at t "delay_after_disarm_sec")
          (int_or_keep (toml.int_at t "delay_after_disarm") out.delay_after_disarm_sec);
    enumerate_attempts = int_or_keep (toml.int_at t "enumerate_attempts") out.enumerate_attempts;
    enumerate_retry_delay_sec =
        int_or_keep (toml.int_at t "enumerate_retry_delay_sec") out.enumerate_retry_delay_sec;
    download_timeout_sec = int_or_keep (toml.int_at t "download_timeout") out.download_timeout_sec;
    retry_count = int_or_keep (toml.int_at t "retry_count") out.retry_count;
    retry_delay_sec = int_or_keep (toml.int_at t "retry_delay") out.retry_delay_sec;
    probe_bytes = int_or_keep (toml.int_at t "probe_bytes") out.probe_bytes;
    verify_after_download =
        or_keep (toml.bool_at t "verify_after_download") out.verify_after_download;
    erase_after_success = or_keep (toml.bool_at t "erase_after_success") out.erase_after_success;
    stall_abort_attempts =
        int_or_keep (toml.int_at t "stall_abort_attempts") out.stall_abort_attempts;
    fc_busy_retry_attempts =
        int_or_keep (toml.int_at t "fc_busy_retry_attempts") out.fc_busy_retry_attempts;
    fc_busy_retry_delay_sec =
        int_or_keep (toml.int_at t "fc_busy_retry_delay_sec") out.fc_busy_retry_delay_sec;
    max_queued_log_data = int_or_keep (toml.int_at t "max_queued_log_data") out.max_queued_log_data;
    reconnect_on_transport_failure =
        or_keep (toml.bool_at t "reconnect_on_transport_failure")
          out.reconnect_on_transport_failure;
    reconnect_after_consecutive_failures =
        int_or_keep (toml.int_at t "reconnect_after_consecutive_failures")
          out.reconnect_after_consecutive_failures;
    gap_fill_idle_ms = int_or_keep (toml.int_at t "gap_fill_idle_ms") out.gap_fill_idle_ms;
    verify_dataflash_parse =
        or_keep (toml.bool_at t "verify_dataflash_parse") out.verify_dataflash_parse;
    verify_max_bad_header_ratio =
        or_keep (toml.double_at t "verify_max_bad_header_ratio") out.verify_max_bad_header_ratio;
    detect_overlap_conflict =
        or_keep (toml.bool_at t "detect_overlap_conflict") out.detect_overlap_conflict;
    verify_fc_reread = or_keep (toml.text_at t "verify_fc_reread") out.verify_fc_reread;
    verify_fc_reread_sample_count =
        int_or_keep (toml.int_at t "verify_fc_reread_sample_count")
          out.verify_fc_reread_sample_count;
    benchmark_download = or_keep (toml.bool_at t "benchmark_download") out.benchmark_download;
  }

  unfoldable pub load_storage : Table → StorageSection → StorageSection
  load_storage t out = record {
    directory = or_keep (toml.text_at t "directory") out.directory;
    max_size_gb = int_or_keep (toml.int_at t "max_size_gb") out.max_size_gb;
  }

  unfoldable pub load_logging : Table → LoggingSection → LoggingSection
  load_logging t out = record {
    verbose = or_keep (toml.bool_at t "verbose") out.verbose;
    file = or_keep (toml.text_at t "file") out.file;
  }

  unfoldable pub load_companion : Table → CompanionSection → CompanionSection
  load_companion t out = record {
    enabled = or_keep (toml.bool_at t "enabled") out.enabled;
    bind_host = or_keep (toml.text_at t "bind_host") out.bind_host;
    bind_port = int_or_keep (toml.int_at t "bind_port") out.bind_port;
    send_host = or_keep (toml.text_at t "send_host") out.send_host;
    send_port = int_or_keep (toml.int_at t "send_port") out.send_port;
    token = or_keep (toml.text_at t "token") out.token;
    max_request_bytes = int_or_keep (toml.int_at t "max_request_bytes") out.max_request_bytes;
    max_response_bytes = int_or_keep (toml.int_at t "max_response_bytes") out.max_response_bytes;
    max_fc_logs_per_response =
        int_or_keep (toml.int_at t "max_fc_logs_per_response") out.max_fc_logs_per_response;
    udp_proxy_keepalive_ms =
        int_or_keep (toml.int_at t "udp_proxy_keepalive_ms") out.udp_proxy_keepalive_ms;
  }

  unfoldable pub load_recording : Table → RecordingSection → RecordingSection
  load_recording t out = record {
    enabled = or_keep (toml.bool_at t "enabled") out.enabled;
    mount_path = or_keep (toml.text_at t "mount_path") out.mount_path;
    source_port = int_or_keep (toml.int_at t "source_port") out.source_port;
    rtp_payload_type = int_or_keep (toml.int_at t "rtp_payload_type") out.rtp_payload_type;
    filename_prefix = or_keep (toml.text_at t "filename_prefix") out.filename_prefix;
    gst_launch_path = or_keep (toml.text_at t "gst_launch_path") out.gst_launch_path;
    fsync_interval_sec = int_or_keep (toml.int_at t "fsync_interval_sec") out.fsync_interval_sec;
  }

  unfoldable pub load_section : {A : Type 0} → (Table → A → A) → Option Table → A → A
  load_section load none old = old
  load_section load (some t) old = load t old

  unfoldable pub is_present : Option Table → Bool
  is_present none = false
  is_present (some t) = true

  -- `[transport]`, else `[mavlink]`.
  unfoldable pub transport_table : Table → Option Table
  transport_table t = elim (toml.table_at t "transport") [
    | some sec ↦ some sec
    | none ↦ toml.table_at t "mavlink"
  ]

  unfoldable pub load_from_file : D → Table → LoadedConfig D
  load_from_file ratio t =
      let cfg = default_config ratio in
      record {
        transport = load_section load_transport (transport_table t) cfg.transport;
        download = load_section load_download (toml.table_at t "download") cfg.download;
        storage = load_section load_storage (toml.table_at t "storage") cfg.storage;
        logging = load_section load_logging (toml.table_at t "logging") cfg.logging;
        companion = load_section load_companion (toml.table_at t "companion") cfg.companion;
        recording = load_section load_recording (toml.table_at t "recording") cfg.recording;
        companion_table_present = is_present (toml.table_at t "companion");
      }

unfoldable pub parse_fc_reread_mode : Text → FcRereadMode
parse_fc_reread_mode value =
    if text_eq value (codes "none")
    then FcRereadMode.none
    else if text_eq value (codes "full")
    then FcRereadMode.full
    else FcRereadMode.sample
