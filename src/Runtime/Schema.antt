-- ===== src/Runtime/Schema.antt =====
-- runtime/schema/schema.go. Compiling a schema and validating with it is the library's
-- `gojsonschema`, a parameter here.
use shimmy_wasm_go.Base.{Bool, true, false, Option, none, some, List, [], ◌∷◌, if◌then◌else◌}
use shimmy_wasm_go.Exec.{Error, message, Result, ok, err, panics}
use shimmy_wasm_go.Json.{Map}
use shimmy_wasm_go.Runtime.Errors.{FieldError}

pub data SchemaType : Type 0 where
  eval preview health : SchemaType

abbrev pub schema_type_eq : SchemaType → SchemaType → Bool
schema_type_eq eval eval = true
schema_type_eq preview preview = true
schema_type_eq health health = true
schema_type_eq _ _ = false

-- `(*gojsonschema.Schema).Validate`: the errors that it finds, or that the data cannot be loaded.
abbrev pub Validator : Type 0
Validator = Map → Result Error (List FieldError)

-- The map of schemas; a schema may be nil.
pub record Schema : Type 0 where
  pub schemas : List (SchemaType × Option Validator)

unfoldable pub new : Option Validator → Option Validator → Option Validator → Schema
new e p h = record { schemas = (eval, e) ∷ (preview, p) ∷ (health, h) ∷ [] }

unfoldable pub find :
    SchemaType → List (SchemaType × Option Validator) → Result Error (Option Validator)
find t [] = err (message "schema not found")
find t ((u, v) ∷ l) = if schema_type_eq u t then ok v else find t l

unfoldable pub get : Schema → SchemaType → Result Error (Option Validator)
unfolding find
get s t = find t s.schemas

-- A nil schema is dereferenced by the library.
unfoldable pub validate : Schema → SchemaType → Map → Result Error (List FieldError)
unfolding get
validate s t m = elim (get s t) [
  | err e ↦ err e
  | panics ↦ panics
  | ok none ↦ panics
  | ok (some v) ↦ v m
]

-- the embedded schema files
pub data SchemaFile : Type 0 where
  request_eval request_preview response_eval response_preview response_health : SchemaFile

infixl 5 ◌>>=◌
abbrev ◌>>=◌ {ℓ κ} :
    {A : Type ℓ} {B : Type κ} → Result Error A → (A → Result Error B) → Result Error B
ok a >>= f = f a
err e >>= f = err e
panics >>= f = panics

-- `gojsonschema.NewSchema` compiles a file.
module _ (new_schema : SchemaFile → Result Error Validator) where
  unfoldable pub new_request_schema : Result Error Schema
  unfolding new
  new_request_schema = do
    e ← new_schema request_eval
    p ← new_schema request_preview
    ok (new (some e) (some p) none)

  unfoldable pub new_response_schema : Result Error Schema
  unfolding new
  new_response_schema = do
    e ← new_schema response_eval
    p ← new_schema response_preview
    h ← new_schema response_health
    ok (new (some e) (some p) (some h))
