-- ===== src/Configuration/Written.antt =====
-- What a table of the configuration file sets, and that each section is loaded as it was written.
use mavlink_companion_log_se.Base.{◌≡◌, refl, List, [], ◌∷◌, none}
use mavlink_companion_log_se.Configuration.{
  or_keep, int_or_keep, load_transport, load_download, load_storage, load_logging, load_companion,
  load_recording,
}
use mavlink_companion_log_se.Configuration.Sections.{
  Toml, TransportSection, DownloadSection, StorageSection, LoggingSection, CompanionSection,
  RecordingSection,
}
use mavlink_companion_log_se.Configuration.Settings.{
  IsInt, Says, Setting, bool_set, companion_settings, double_set, download_settings,
  int_or_keep-Says, int_set, logging_settings, or_keep-Says, recording_settings, storage_settings,
  text_set, transport_settings, unset,
}

module _ {Table D : Type 0} (toml : Toml Table D) where
  abbrev pub Written : Table → List (Setting D) → Type 0
  Written t [] = Unit {0}
  Written t (text_set k new old ∷ ss) = Says (toml.text_at t k) new old × Written t ss
  Written t (int_set k new old ∷ ss) = (IsInt new × Says (toml.int_at t k) new old) × Written t ss
  Written t (bool_set k new old ∷ ss) = Says (toml.bool_at t k) new old × Written t ss
  Written t (double_set k new old ∷ ss) = Says (toml.double_at t k) new old × Written t ss
  Written t (unset k ∷ ss) = (toml.int_at t k ≡ none) × Written t ss

  pub load_transport-Written :
      (t : Table) (c old : TransportSection)
      → Written t (transport_settings c old)
      → load_transport toml t old ≡ c
  unfolding load_transport
  load_transport-Written t c old w =
      rw
        (
          or_keep-Says (toml.text_at t "transport") c.transport old.transport w.0,
          or_keep-Says (toml.text_at t "host") c.host old.host w.1.0,
          int_or_keep-Says (toml.int_at t "port") c.port old.port w.1.1.0.0 w.1.1.0.1,
          or_keep-Says (toml.text_at t "bind_host") c.bind_host old.bind_host w.1.1.1.0,
          int_or_keep-Says (toml.int_at t "bind_port") c.bind_port old.bind_port w.1.1.1.1.0.0
              w.1.1.1.1.0.1,
          int_or_keep-Says (toml.int_at t "heartbeat_timeout_sec") c.heartbeat_timeout_sec
              old.heartbeat_timeout_sec w.1.1.1.1.1.0.0 w.1.1.1.1.1.0.1,
        )
        refl

  pub load_download-Written :
      (t : Table) (c old : DownloadSection D)
      → Written t (download_settings c old)
      → load_download toml t old ≡ c
  unfolding load_download int_or_keep or_keep
  load_download-Written t c old w =
      rw
        (
          w.0,
          int_or_keep-Says (toml.int_at t "delay_after_disarm_sec") c.delay_after_disarm_sec
              old.delay_after_disarm_sec w.1.0.0 w.1.0.1,
          int_or_keep-Says (toml.int_at t "enumerate_attempts") c.enumerate_attempts
              old.enumerate_attempts w.1.1.0.0 w.1.1.0.1,
          int_or_keep-Says (toml.int_at t "enumerate_retry_delay_sec") c.enumerate_retry_delay_sec
              old.enumerate_retry_delay_sec w.1.1.1.0.0 w.1.1.1.0.1,
          int_or_keep-Says (toml.int_at t "download_timeout") c.download_timeout_sec
              old.download_timeout_sec w.1.1.1.1.0.0 w.1.1.1.1.0.1,
          int_or_keep-Says (toml.int_at t "retry_count") c.retry_count old.retry_count
              w.1.1.1.1.1.0.0 w.1.1.1.1.1.0.1,
          int_or_keep-Says (toml.int_at t "retry_delay") c.retry_delay_sec old.retry_delay_sec
              w.1.1.1.1.1.1.0.0 w.1.1.1.1.1.1.0.1,
          int_or_keep-Says (toml.int_at t "probe_bytes") c.probe_bytes old.probe_bytes
              w.1.1.1.1.1.1.1.0.0 w.1.1.1.1.1.1.1.0.1,
          or_keep-Says (toml.bool_at t "verify_after_download") c.verify_after_download
              old.verify_after_download w.1.1.1.1.1.1.1.1.0,
          or_keep-Says (toml.bool_at t "erase_after_success") c.erase_after_success
              old.erase_after_success w.1.1.1.1.1.1.1.1.1.0,
          int_or_keep-Says (toml.int_at t "stall_abort_attempts") c.stall_abort_attempts
              old.stall_abort_attempts w.1.1.1.1.1.1.1.1.1.1.0.0 w.1.1.1.1.1.1.1.1.1.1.0.1,
          int_or_keep-Says (toml.int_at t "fc_busy_retry_attempts") c.fc_busy_retry_attempts
              old.fc_busy_retry_attempts w.1.1.1.1.1.1.1.1.1.1.1.0.0 w.1.1.1.1.1.1.1.1.1.1.1.0.1,
          int_or_keep-Says (toml.int_at t "fc_busy_retry_delay_sec") c.fc_busy_retry_delay_sec
              old.fc_busy_retry_delay_sec w.1.1.1.1.1.1.1.1.1.1.1.1.0.0
              w.1.1.1.1.1.1.1.1.1.1.1.1.0.1,
          int_or_keep-Says (toml.int_at t "max_queued_log_data") c.max_queued_log_data
              old.max_queued_log_data w.1.1.1.1.1.1.1.1.1.1.1.1.1.0.0
              w.1.1.1.1.1.1.1.1.1.1.1.1.1.0.1,
          or_keep-Says (toml.bool_at t "reconnect_on_transport_failure")
              c.reconnect_on_transport_failure old.reconnect_on_transport_failure
              w.1.1.1.1.1.1.1.1.1.1.1.1.1.1.0,
          int_or_keep-Says (toml.int_at t "reconnect_after_consecutive_failures")
              c.reconnect_after_consecutive_failures old.reconnect_after_consecutive_failures
              w.1.1.1.1.1.1.1.1.1.1.1.1.1.1.1.0.0 w.1.1.1.1.1.1.1.1.1.1.1.1.1.1.1.0.1,
          int_or_keep-Says (toml.int_at t "gap_fill_idle_ms") c.gap_fill_idle_ms
              old.gap_fill_idle_ms w.1.1.1.1.1.1.1.1.1.1.1.1.1.1.1.1.0.0
              w.1.1.1.1.1.1.1.1.1.1.1.1.1.1.1.1.0.1,
          or_keep-Says (toml.bool_at t "verify_dataflash_parse") c.verify_dataflash_parse
              old.verify_dataflash_parse w.1.1.1.1.1.1.1.1.1.1.1.1.1.1.1.1.1.0,
          or_keep-Says (toml.double_at t "verify_max_bad_header_ratio")
              c.verify_max_bad_header_ratio old.verify_max_bad_header_ratio
              w.1.1.1.1.1.1.1.1.1.1.1.1.1.1.1.1.1.1.0,
          or_keep-Says (toml.bool_at t "detect_overlap_conflict") c.detect_overlap_conflict
              old.detect_overlap_conflict w.1.1.1.1.1.1.1.1.1.1.1.1.1.1.1.1.1.1.1.0,
          or_keep-Says (toml.text_at t "verify_fc_reread") c.verify_fc_reread old.verify_fc_reread
              w.1.1.1.1.1.1.1.1.1.1.1.1.1.1.1.1.1.1.1.1.0,
          int_or_keep-Says (toml.int_at t "verify_fc_reread_sample_count")
              c.verify_fc_reread_sample_count old.verify_fc_reread_sample_count
              w.1.1.1.1.1.1.1.1.1.1.1.1.1.1.1.1.1.1.1.1.1.0.0
              w.1.1.1.1.1.1.1.1.1.1.1.1.1.1.1.1.1.1.1.1.1.0.1,
          or_keep-Says (toml.bool_at t "benchmark_download") c.benchmark_download
              old.benchmark_download w.1.1.1.1.1.1.1.1.1.1.1.1.1.1.1.1.1.1.1.1.1.1.0,
        )
        refl

  pub load_storage-Written :
      (t : Table) (c old : StorageSection)
      → Written t (storage_settings c old)
      → load_storage toml t old ≡ c
  unfolding load_storage
  load_storage-Written t c old w =
      rw
        (
          or_keep-Says (toml.text_at t "directory") c.directory old.directory w.0,
          int_or_keep-Says (toml.int_at t "max_size_gb") c.max_size_gb old.max_size_gb w.1.0.0
              w.1.0.1,
        )
        refl

  pub load_logging-Written :
      (t : Table) (c old : LoggingSection)
      → Written t (logging_settings c old)
      → load_logging toml t old ≡ c
  unfolding load_logging
  load_logging-Written t c old w =
      rw
        (
          or_keep-Says (toml.bool_at t "verbose") c.verbose old.verbose w.0,
          or_keep-Says (toml.text_at t "file") c.file old.file w.1.0,
        )
        refl

  pub load_companion-Written :
      (t : Table) (c old : CompanionSection)
      → Written t (companion_settings c old)
      → load_companion toml t old ≡ c
  unfolding load_companion
  load_companion-Written t c old w =
      rw
        (
          or_keep-Says (toml.bool_at t "enabled") c.enabled old.enabled w.0,
          or_keep-Says (toml.text_at t "bind_host") c.bind_host old.bind_host w.1.0,
          int_or_keep-Says (toml.int_at t "bind_port") c.bind_port old.bind_port w.1.1.0.0
              w.1.1.0.1,
          or_keep-Says (toml.text_at t "send_host") c.send_host old.send_host w.1.1.1.0,
          int_or_keep-Says (toml.int_at t "send_port") c.send_port old.send_port w.1.1.1.1.0.0
              w.1.1.1.1.0.1,
          or_keep-Says (toml.text_at t "token") c.token old.token w.1.1.1.1.1.0,
          int_or_keep-Says (toml.int_at t "max_request_bytes") c.max_request_bytes
              old.max_request_bytes w.1.1.1.1.1.1.0.0 w.1.1.1.1.1.1.0.1,
          int_or_keep-Says (toml.int_at t "max_response_bytes") c.max_response_bytes
              old.max_response_bytes w.1.1.1.1.1.1.1.0.0 w.1.1.1.1.1.1.1.0.1,
          int_or_keep-Says (toml.int_at t "max_fc_logs_per_response") c.max_fc_logs_per_response
              old.max_fc_logs_per_response w.1.1.1.1.1.1.1.1.0.0 w.1.1.1.1.1.1.1.1.0.1,
          int_or_keep-Says (toml.int_at t "udp_proxy_keepalive_ms") c.udp_proxy_keepalive_ms
              old.udp_proxy_keepalive_ms w.1.1.1.1.1.1.1.1.1.0.0 w.1.1.1.1.1.1.1.1.1.0.1,
        )
        refl

  pub load_recording-Written :
      (t : Table) (c old : RecordingSection)
      → Written t (recording_settings c old)
      → load_recording toml t old ≡ c
  unfolding load_recording
  load_recording-Written t c old w =
      rw
        (
          or_keep-Says (toml.bool_at t "enabled") c.enabled old.enabled w.0,
          or_keep-Says (toml.text_at t "mount_path") c.mount_path old.mount_path w.1.0,
          int_or_keep-Says (toml.int_at t "source_port") c.source_port old.source_port w.1.1.0.0
              w.1.1.0.1,
          int_or_keep-Says (toml.int_at t "rtp_payload_type") c.rtp_payload_type
              old.rtp_payload_type w.1.1.1.0.0 w.1.1.1.0.1,
          or_keep-Says (toml.text_at t "filename_prefix") c.filename_prefix old.filename_prefix
              w.1.1.1.1.0,
          or_keep-Says (toml.text_at t "gst_launch_path") c.gst_launch_path old.gst_launch_path
              w.1.1.1.1.1.0,
          int_or_keep-Says (toml.int_at t "fsync_interval_sec") c.fsync_interval_sec
              old.fsync_interval_sec w.1.1.1.1.1.1.0.0 w.1.1.1.1.1.1.0.1,
        )
        refl
