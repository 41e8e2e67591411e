-- ===== src/Runtime/Validate.antt =====
-- runtime/handler_validate.go, and the handler's type in runtime/handler.go.
pub mod Laws
use shimmy_wasm_go.Base.{Option, none, some, List, [], ◌∷◌}
use shimmy_wasm_go.Exec.{Error, Result, ok, err, panics, Exec}
use shimmy_wasm_go.Json.{Map}
use shimmy_wasm_go.Runtime.Command.{Command, preview, eval, healthcheck}
use shimmy_wasm_go.Runtime.Errors.{
  ValidationType, request, response, RuntimeError, schema_not_found, invalid_command,
  validation_failed, validation_error, FieldError,
}
use shimmy_wasm_go.Runtime.Schema
use shimmy_wasm_go.Runtime.Schema.{
  Schema, SchemaType, SchemaFile, Validator, new_request_schema, new_response_schema,
}

-- `runtime.Runtime`: what the dispatcher answers to a message, over the state that it keeps.
pub record Runtime (S : Type 0) : Type 0 where
  pub handle : Command → Map → Exec Error S Map

pub record RuntimeHandler (S : Type 0) : Type 0 where
  pub runtime : Runtime S
  pub schemas : ValidationType → Option Schema

-- `NewRuntimeHandler`
abbrev pub both_schemas : Schema → Schema → ValidationType → Option Schema
both_schemas req res request = some req
both_schemas req res response = some res

unfoldable pub new_runtime_handler :
    {S : Type 0}
    → (SchemaFile → Result Error Validator)
    → Runtime S
    → Result Error (RuntimeHandler S)
unfolding new_request_schema new_response_schema
new_runtime_handler new_schema runtime = elim (new_request_schema new_schema) [
  | err e ↦ err e
  | panics ↦ panics
  | ok req ↦ elim (new_response_schema new_schema) [
    | err e ↦ err e
    | panics ↦ panics
    | ok res ↦ ok (record { runtime = runtime; schemas = both_schemas req res })
  ]
]

unfoldable pub get_schema_type : Command → Result RuntimeError SchemaType
get_schema_type eval = ok SchemaType.eval
get_schema_type preview = ok SchemaType.preview
get_schema_type healthcheck = ok SchemaType.health
get_schema_type (Command.other s) = err invalid_command

-- what `res.Valid()` says
abbrev pub verdict :
    ValidationType → Result Error (List FieldError) → Result RuntimeError (Unit {0})
verdict t (err e) = err validation_failed
verdict t panics = panics
verdict t (ok []) = ok tt
verdict t (ok (e ∷ es)) = err (validation_error t (e ∷ es))

abbrev pub check_type :
    ValidationType → Schema → Result RuntimeError SchemaType → Map → Result RuntimeError (Unit {0})
check_type t schema (ok st) m = verdict t (Schema.validate schema st m)
check_type t schema (err e) m = err schema_not_found
check_type t schema panics m = panics

abbrev pub check : ValidationType → Option Schema → Command → Map → Result RuntimeError (Unit {0})
check t none c m = err schema_not_found
check t (some schema) c m = check_type t schema (get_schema_type c) m

unfoldable pub validate :
    {S : Type 0}
    → RuntimeHandler S
    → ValidationType
    → Command
    → Map
    → Result RuntimeError (Unit {0})
unfolding get_schema_type Schema.validate
validate h request healthcheck m = ok tt
validate h t c m = check t (h.schemas t) c m
