-- ===== src/Json/Codec.antt =====
-- `json.Marshal` and `json.Unmarshal` as the program uses them. A body of bytes is modelled by what
-- it says: the JSON document that it spells, or the error that it gives.
use shimmy_wasm_go.Base.{suc, String, ◌≡◌, refl, true, false, none, some, List, [], ◌∷◌}
use shimmy_wasm_go.Exec.{Error, message, Result, ok, err, ◌<>◌}
use shimmy_wasm_go.Json.{
  ℤ, pos, negsuc, Float64, CaseWarning, Value, null, bool, float64, int, string, slice, object,
  strings, case_warnings, case_warning, Items, nil, cons, Fields, end, field, Map,
}

pub data Body : Type 0 where
  malformed : String → Body
  document : Value → Body

-- no bytes at all, which is also what a nil slice is sent as
abbrev pub empty_body : Body
empty_body = malformed "unexpected end of JSON input"

-- An int is written as digits, which are read as a float64.
abbrev pub float_of_int : ℤ → Float64
float_of_int (pos n) = record { negative = false; mantissa = n; halvings = 0 }
float_of_int (negsuc n) = record { negative = true; mantissa = suc n; halvings = 0 }

abbrev pub string_items : List String → Items
string_items [] = nil
string_items (s ∷ ss) = cons (string s) (string_items ss)

-- the struct tags of `CaseWarning`
abbrev pub warning_fields : CaseWarning → Fields
warning_fields w =
    field "message" (string w.message) (field "case" (float64 (float_of_int (pos w.case))) end)

abbrev pub warning_items : List CaseWarning → Items
warning_items [] = nil
warning_items (w ∷ ws) = cons (object (warning_fields w)) (warning_items ws)

-- The document that `json.Marshal` writes. It has no error here: every number is finite, and every
-- dynamic type can be written.
unfoldable mutual
  pub to_json : Value → Value
  to_json null = null
  to_json (bool b) = bool b
  to_json (float64 f) = float64 f
  to_json (int n) = float64 (float_of_int n)
  to_json (string s) = string s
  to_json (slice xs) = slice (to_json_items xs)
  to_json (object m) = object (to_json_fields m)
  to_json (strings ss) = slice (string_items ss)
  to_json (case_warnings ws) = slice (warning_items ws)
  to_json (case_warning w) = object (warning_fields w)

  pub to_json_items : Items → Items
  to_json_items nil = nil
  to_json_items (cons v xs) = cons (to_json v) (to_json_items xs)

  pub to_json_fields : Fields → Fields
  to_json_fields end = end
  to_json_fields (field k v m) = field k (to_json v) (to_json_fields m)

abbrev pub map_value : Map → Value
map_value none = null
map_value (some m) = object m

unfoldable pub marshal : Map → Body
unfolding to_json
marshal m = document (to_json (map_value m))

abbrev kind : Value → String
kind (bool b) = "bool"
kind (float64 f) = "number"
kind (string s) = "string"
kind _ = "array"

-- `json.Unmarshal(body, &m)` with `var m map[string]any`: `null` leaves the nil map.
unfoldable pub unmarshal : Body → Result Error Map
unmarshal (malformed s) = err (message s)
unmarshal (document null) = ok none
unmarshal (document (object m)) = ok (some m)
unmarshal (document v) = err (
    message
      ("json: cannot unmarshal " <> kind v <> " into Go value of type map[string]interface {}"))

-- A map that is written and read again is the map of what was written for its values.
pub unmarshal-marshal : (m : Fields) → unmarshal (marshal (some m)) ≡ ok (some (to_json_fields m))
unfolding unmarshal marshal
unmarshal-marshal m = refl
