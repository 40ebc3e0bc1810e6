-- ===== src/Configuration/Examples.antt =====
-- A file that sets the storage limit only.
use Prim.Native.String.{String}
use text.Mathlib.Text.{◌==◌ as str_eq}
use mavlink_companion_log_se.Base.{
  ℕ, ◌+◌, ◌≡◌, refl, Option, none, some, if◌then◌else◌, arith, inl, inr,
}
use mavlink_companion_log_se.Base.Int.{ℤ, pos}
use mavlink_companion_log_se.Configuration.{to_int, transport_table, is_present, load_from_file}
use mavlink_companion_log_se.Configuration.Sections.{Toml, LoadedConfig, default_config}
use mavlink_companion_log_se.Configuration.Loaded.{FileWritten, load_from_file-Written}

-- The file and its one table.
data Table : Type 0 where
  root storage_table : Table

sub_table : Table → String → Option Table
sub_table root key = if str_eq key "storage" then some storage_table else none
sub_table storage_table key = none

integer : Table → String → Option ℤ
integer root key = none
integer storage_table key = if str_eq key "max_size_gb" then some (pos 4) else none

abbrev toml : Toml Table ℕ
toml = record {
  text_at = λ t key. none;
  int_at = integer;
  bool_at = λ t key. none;
  double_at = λ t key. none;
  table_at = sub_table;
}

abbrev defaults : LoadedConfig ℕ
defaults = default_config 1

abbrev four_gb : LoadedConfig ℕ
four_gb = record defaults { storage = record defaults.storage { max_size_gb = pos 4 } }

is_written : FileWritten toml root four_gb defaults
unfolding default_config sub_table integer transport_table is_present
is_written = (refl, refl, (inr (refl, refl), ((omega arith, inl refl), tt)), refl, refl, refl, refl)

-- An integer beyond 32 bits is cut.
wrapped_run : to_int (pos (4294967296 + 5760)) ≡ pos 5760
unfolding to_int
wrapped_run = refl

load_from_file-Written_example : load_from_file toml 1 root ≡ four_gb
load_from_file-Written_example = load_from_file-Written toml 1 root four_gb is_written
