-- ===== src/Configuration/Loaded.antt =====
-- A configuration that is written to a file is what is loaded from it.
use mavlink_companion_log_se.Base.{◌≡◌, refl, sym, List, Option, none, some}
use mavlink_companion_log_se.Configuration.{
  load_transport, load_download, load_storage, load_logging, load_companion, load_recording,
  load_section, is_present, transport_table, load_from_file,
}
use mavlink_companion_log_se.Configuration.Sections.{Toml, LoadedConfig, default_config}
use mavlink_companion_log_se.Configuration.Written.{
  Written, load_transport-Written, load_download-Written, load_storage-Written,
  load_logging-Written, load_companion-Written, load_recording-Written,
}
use mavlink_companion_log_se.Configuration.Settings.{
  Setting, transport_settings, download_settings, storage_settings, logging_settings,
  companion_settings, recording_settings,
}

module _ {Table D : Type 0} (toml : Toml Table D) where
  -- A table of the file with the section's settings, or none where it has the old ones.
  abbrev pub SectionWritten :
      {A : Type 0} → (A → A → List (Setting D)) → Option Table → A → A → Type 0
  SectionWritten settings none new old = new ≡ old
  SectionWritten settings (some t) new old = Written toml t (settings new old)

  load_section-Written :
      {A : Type 0} (settings : A → A → List (Setting D)) (load : Table → A → A) (o : Option Table)
      (new old : A)
      → ((t : Table) → Written toml t (settings new old) → load t old ≡ new)
      → SectionWritten settings o new old
      → load_section toml load o old ≡ new
  unfolding load_section
  load_section-Written settings load none new old loads w = sym w
  load_section-Written settings load (some t) new old loads w = loads t w

  -- The file `t` is one way to write the configuration `c`.
  abbrev pub FileWritten : Table → LoadedConfig D → LoadedConfig D → Type 0
  FileWritten t c old =
      SectionWritten transport_settings (transport_table toml t) c.transport old.transport
      × SectionWritten download_settings (toml.table_at t "download") c.download old.download
      × SectionWritten storage_settings (toml.table_at t "storage") c.storage old.storage
      × SectionWritten logging_settings (toml.table_at t "logging") c.logging old.logging
      × SectionWritten companion_settings (toml.table_at t "companion") c.companion old.companion
      × SectionWritten recording_settings (toml.table_at t "recording") c.recording old.recording
      × (c.companion_table_present ≡ is_present toml (toml.table_at t "companion"))

  -- A file that sets each key of a configuration to its value, or leaves out keys, or a whole table, where the value
  -- is the default, is loaded as that configuration. The integers have 32 bits, the older key delay_after_disarm
  -- is not used, and companion_table_present says whether there is a table [companion].
  pub load_from_file-Written :
      (ratio : D) (t : Table) (c : LoadedConfig D)
      → FileWritten t c (default_config ratio)
      → load_from_file toml ratio t ≡ c
  unfolding load_from_file
  load_from_file-Written ratio t c w =
      let old = default_config ratio in
      rw
        (
          load_section-Written transport_settings (load_transport toml) (transport_table toml t)
              c.transport old.transport
              (λ sec. load_transport-Written toml sec c.transport old.transport) w.0,
          load_section-Written download_settings (load_download toml) (toml.table_at t "download")
              c.download old.download
              (λ sec. load_download-Written toml sec c.download old.download) w.1,
          load_section-Written storage_settings (load_storage toml) (toml.table_at t "storage")
              c.storage old.storage (λ sec. load_storage-Written toml sec c.storage old.storage)
              w.2,
          load_section-Written logging_settings (load_logging toml) (toml.table_at t "logging")
              c.logging old.logging (λ sec. load_logging-Written toml sec c.logging old.logging)
              w.3,
          load_section-Written companion_settings (load_companion toml)
              (toml.table_at t "companion") c.companion old.companion
              (λ sec. load_companion-Written toml sec c.companion old.companion) w.4,
          load_section-Written recording_settings (load_recording toml)
              (toml.table_at t "recording") c.recording old.recording
              (λ sec. load_recording-Written toml sec c.recording old.recording) w.5,
          sym w.6,
        )
        refl
