-- ===== src/Json/Plain.antt =====
-- The values that a JSON text can spell: those that `encoding/json` decodes into.
use shimmy_wasm_go.Base.{some, String, List, [], ◌∷◌, ◌≡◌, refl}
use shimmy_wasm_go.Json.{
  Value, null, bool, float64, int, string, slice, object, strings, case_warnings, case_warning,
  CaseWarning, Items, nil, cons, Fields, end, field,
}
use shimmy_wasm_go.Json.Codec.{
  Body, document, to_json, to_json_items, to_json_fields, string_items, warning_items, marshal,
}

unfoldable mutual
  pub IsPlain : Value → Type 0
  IsPlain null = Unit
  IsPlain (bool b) = Unit
  IsPlain (float64 f) = Unit
  IsPlain (string s) = Unit
  IsPlain (slice xs) = ArePlain xs
  IsPlain (object m) = HasPlain m
  IsPlain (int n) = ⊥
  IsPlain (strings ss) = ⊥
  IsPlain (case_warnings ws) = ⊥
  IsPlain (case_warning w) = ⊥

  ArePlain : Items → Type 0
  ArePlain nil = Unit
  ArePlain (cons v xs) = IsPlain v × ArePlain xs

  HasPlain : Fields → Type 0
  HasPlain end = Unit
  HasPlain (field k v m) = IsPlain v × HasPlain m

string_items-ArePlain : (ss : List String) → ArePlain (string_items ss)
unfolding ArePlain IsPlain
string_items-ArePlain [] = tt
string_items-ArePlain (s ∷ ss) = (tt, string_items-ArePlain ss)

warning_items-ArePlain : (ws : List CaseWarning) → ArePlain (warning_items ws)
unfolding ArePlain IsPlain HasPlain
warning_items-ArePlain [] = tt
warning_items-ArePlain (w ∷ ws) = ((tt, (tt, tt)), warning_items-ArePlain ws)

mutual
  unfolding IsPlain to_json

  pub to_json-IsPlain : (v : Value) → IsPlain (to_json v)
  to_json-IsPlain null = tt
  to_json-IsPlain (bool b) = tt
  to_json-IsPlain (float64 f) = tt
  to_json-IsPlain (int n) = tt
  to_json-IsPlain (string s) = tt
  to_json-IsPlain (slice xs) = to_json_items-ArePlain xs
  to_json-IsPlain (object m) = to_json_fields-HasPlain m
  to_json-IsPlain (strings ss) = string_items-ArePlain ss
  to_json-IsPlain (case_warnings ws) = warning_items-ArePlain ws
  to_json-IsPlain (case_warning w) = (tt, (tt, tt))

  to_json_items-ArePlain : (xs : Items) → ArePlain (to_json_items xs)
  to_json_items-ArePlain nil = tt
  to_json_items-ArePlain (cons v xs) = (to_json-IsPlain v, to_json_items-ArePlain xs)

  to_json_fields-HasPlain : (m : Fields) → HasPlain (to_json_fields m)
  to_json_fields-HasPlain end = tt
  to_json_fields-HasPlain (field k v m) = (to_json-IsPlain v, to_json_fields-HasPlain m)

-- A body that spells a JSON object.
abbrev pub SpellsObject : Body → Type 0
SpellsObject b = (m : Fields) × (b ≡ document (object m)) × IsPlain (object m)

pub marshal-SpellsObject : (m : Fields) → SpellsObject (marshal (some m))
unfolding marshal to_json
marshal-SpellsObject m = (to_json_fields m, refl, to_json-IsPlain (object m))
