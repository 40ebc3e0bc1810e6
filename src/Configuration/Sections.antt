-- ===== src/Configuration/Sections.antt =====
-- include/mcls/Config.hpp: the settings of each section of the configuration file, and their defaults.
use Prim.Native.String.{String}
use mavlink_companion_log_se.Base.{Bool, true, false, Option}
use mavlink_companion_log_se.Base.Int.{ℤ, pos}
use mavlink_companion_log_se.Types.{Text}
use mavlink_companion_log_se.CompanionApi.Json.{codes}

pub record Toml (Table D : Type 0) : Type 0 where
  pub text_at : Table → String → Option Text
  pub int_at : Table → String → Option ℤ
  pub bool_at : Table → String → Option Bool
  pub double_at : Table → String → Option D
  pub table_at : Table → String → Option Table

pub record TransportSection : Type 0 where
  pub transport : Text
  pub host : Text
  pub port : ℤ
  pub bind_host : Text
  pub bind_port : ℤ
  pub heartbeat_timeout_sec : ℤ

pub record DownloadSection (D : Type 0) : Type 0 where
  pub delay_after_disarm_sec : ℤ
  pub enumerate_attempts : ℤ
  pub enumerate_retry_delay_sec : ℤ
  pub download_timeout_sec : ℤ
  pub retry_count : ℤ
  pub retry_delay_sec : ℤ
  pub probe_bytes : ℤ
  pub verify_after_download : Bool
  pub erase_after_success : Bool
  pub stall_abort_attempts : ℤ
  pub fc_busy_retry_attempts : ℤ
  pub fc_busy_retry_delay_sec : ℤ
  pub max_queued_log_data : ℤ
  pub reconnect_on_transport_failure : Bool
  pub reconnect_after_consecutive_failures : ℤ
  pub gap_fill_idle_ms : ℤ
  pub verify_dataflash_parse : Bool
  pub verify_max_bad_header_ratio : D
  pub detect_overlap_conflict : Bool
  pub verify_fc_reread : Text
  pub verify_fc_reread_sample_count : ℤ
  pub benchmark_download : Bool

pub record StorageSection : Type 0 where
  pub directory : Text
  pub max_size_gb : ℤ

pub record LoggingSection : Type 0 where
  pub verbose : Bool
  pub file : Text

pub record CompanionSection : Type 0 where
  pub enabled : Bool
  pub bind_host : Text
  pub bind_port : ℤ
  pub send_host : Text
  pub send_port : ℤ
  pub token : Text
  pub max_request_bytes : ℤ
  pub max_response_bytes : ℤ
  pub max_fc_logs_per_response : ℤ
  pub udp_proxy_keepalive_ms : ℤ

pub record RecordingSection : Type 0 where
  pub enabled : Bool
  pub mount_path : Text
  pub source_port : ℤ
  pub rtp_payload_type : ℤ
  pub filename_prefix : Text
  pub gst_launch_path : Text
  pub fsync_interval_sec : ℤ

pub record LoadedConfig (D : Type 0) : Type 0 where
  pub transport : TransportSection
  pub download : DownloadSection D
  pub storage : StorageSection
  pub logging : LoggingSection
  pub companion : CompanionSection
  pub recording : RecordingSection
  pub companion_table_present : Bool

-- The settings of a file that sets none; `ratio` stands for the literal 0.001.
unfoldable pub default_config : {D : Type 0} → D → LoadedConfig D
default_config ratio = record {
  transport = record {
    transport = codes "tcp";
    host = codes "127.0.0.1";
    port = pos 5760;
    bind_host = codes "0.0.0.0";
    bind_port = pos 0;
    heartbeat_timeout_sec = pos 5;
  };
  download = record {
    delay_after_disarm_sec = pos 5;
    enumerate_attempts = pos 6;
    enumerate_retry_delay_sec = pos 3;
    download_timeout_sec = pos 5;
    retry_count = pos 3;
    retry_delay_sec = pos 2;
    probe_bytes = pos 51200;
    verify_after_download = true;
    erase_after_success = true;
    stall_abort_attempts = pos 3;
    fc_busy_retry_attempts = pos 8;
    fc_busy_retry_delay_sec = pos 3;
    max_queued_log_data = pos 2048;
    reconnect_on_transport_failure = true;
    reconnect_after_consecutive_failures = pos 3;
    gap_fill_idle_ms = pos 500;
    verify_dataflash_parse = true;
    verify_max_bad_header_ratio = ratio;
    detect_overlap_conflict = true;
    verify_fc_reread = codes "sample";
    verify_fc_reread_sample_count = pos 64;
    benchmark_download = false;
  };
  storage = record { directory = codes "/var/lib/mcls"; max_size_gb = pos 1 };
  logging = record { verbose = true; file = codes "" };
  companion = record {
    enabled = false;
    bind_host = codes "127.0.0.1";
    bind_port = pos 14541;
    send_host = codes "127.0.0.1";
    send_port = pos 14540;
    token = codes "";
    max_request_bytes = pos 2048;
    max_response_bytes = pos 1200;
    max_fc_logs_per_response = pos 8;
    udp_proxy_keepalive_ms = pos 5000;
  };
  recording = record {
    enabled = false;
    mount_path = codes "/mnt/usb";
    source_port = pos 5603;
    rtp_payload_type = pos 35;
    filename_prefix = codes "rec";
    gst_launch_path = codes "gst-launch-1.0";
    fsync_interval_sec = pos 3;
  };
  companion_table_present = false;
}
