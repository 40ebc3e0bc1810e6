-- ===== src/CompanionApi/Json.antt =====
-- nlohmann/json, a library that src/CompanionProtocol.cpp calls: the documents it is asked to print, and what it
-- answers on those it has parsed. Where it throws, it answers `none`.
use Prim.Native.Char.{code}
use Prim.Native.String.{String}
use text.Mathlib.Text.{◌==◌ as str_eq}
use mavlink_companion_log_se.Base.{List, [], ◌∷◌, Bool, Option, none, some, if◌then◌else◌}
use mavlink_companion_log_se.Base.Int.{ℤ}
use mavlink_companion_log_se.Types.{Text}

-- The characters of a literal.
abbrev pub codes : String → Text
codes String.[] = []
codes (String.◌∷◌ c s) = code c ∷ codes s

mutual
  pub data Json : Type 0 where
    null : Json
    bool : Bool → Json
    number : ℤ → Json
    string : Text → Json
    array : Items → Json
    object : Fields → Json

  pub data Items : Type 0 where
    nil : Items
    cons : Json → Items → Items

  pub data Fields : Type 0 where
    end' : Fields
    field : String → Json → Fields → Fields

-- `r[key] = value`.
unfoldable pub put : String → Json → Fields → Fields
put k v end' = field k v end'
put k v (field j w fs) = if str_eq j k then field j v fs else field j w (put k v fs)

unfoldable pub find : String → Fields → Option Json
find k end' = none
find k (field j w fs) = if str_eq j k then some w else find k fs

pub record JsonLibrary : Type 1 where
  pub Value : Type 0
  pub parse : Text → Option Value
  pub value_int : Value → String → ℤ → Option ℤ
  pub value_text : Value → String → Text → Option Text
  pub value_bool : Value → String → Bool → Option Bool
  pub contains : Value → String → Bool
  pub at : Value → String → Value
  pub is_object : Value → Bool
  pub is_array : Value → Bool
  pub is_number_integer : Value → Bool
  pub is_number_unsigned : Value → Bool
  pub elements : Value → List Value
  pub get_int64 : Value → ℤ
  pub dump : Json → Text
