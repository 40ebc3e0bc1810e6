-- ===== src/CompanionApi/Request.antt =====
-- src/CompanionProtocol.cpp: `parseRequest`. The library that parses is an argument.
use mavlink_companion_log_se.Base.{
  ℕ, List, [], ◌∷◌, Bool, true, false, ◌&&◌, ◌||◌, leb, Option, none, some, if◌then◌else◌,
}
use mavlink_companion_log_se.Base.Int.{ℤ, pos, negsuc}
use mavlink_companion_log_se.Base.Fallible.{◌>>=◌}
use mavlink_companion_log_se.Types.{Text}
use mavlink_companion_log_se.CompanionApi.Json.{JsonLibrary}

pub record CompanionRequest : Type 0 where
  pub version : ℤ
  pub id : ℤ
  pub op : Text
  pub token : Text
  pub client : Text
  pub offset : ℤ
  pub limit : ℤ
  pub sel_ids : List ℕ
  pub sel_all : Bool

abbrev pub is_empty {ℓ} : {A : Type ℓ} → List A → Bool
is_empty [] = true
is_empty (x ∷ xs) = false

-- An id that fits in 16 bits.
unfoldable pub add_id : ℤ → List ℕ → List ℕ
add_id (pos n) ids = if leb n 0xFFFF then n ∷ ids else ids
add_id (negsuc n) ids = ids

module _ (lib : JsonLibrary) where
  open lib use {
    Value, parse, value_int, value_text, value_bool, contains, at, is_object, is_array,
    is_number_integer, is_number_unsigned, elements, get_int64, dump,
  }

  unfoldable pub selected_ids : List Value → List ℕ
  selected_ids [] = []
  selected_ids (v ∷ vs) =
      let rest = selected_ids vs in
      if is_number_integer v || is_number_unsigned v then add_id (get_int64 v) rest else rest

  unfoldable pub parse_selection : Value → Option (List ℕ × Bool)
  parse_selection obj =
      let sel = at obj "sel" in
      let ids =
        if contains sel "ids" && is_array (at sel "ids")
        then selected_ids (elements (at sel "ids"))
        else [] in
      if contains obj "sel" && is_object sel
      then (value_bool sel "all" false >>= λ all. some (ids, all))
      else some ([], false)

  unfoldable pub parse_request : Text → Option CompanionRequest
  parse_request json_text = do
    obj ← parse json_text
    version ← value_int obj "v" (pos 0)
    id ← value_int obj "id" (pos 0)
    op ← value_text obj "op" []
    token ← value_text obj "token" []
    client ← value_text obj "client" []
    offset ← value_int obj "offset" (pos 0)
    limit ← value_int obj "limit" (pos 8)
    (sel_ids, sel_all) ← parse_selection obj
    if is_empty op
        then none
        else some (record {
          version = version;
          id = id;
          op = op;
          token = token;
          client = client;
          offset = offset;
          limit = limit;
          sel_ids = sel_ids;
          sel_all = sel_all;
        })
