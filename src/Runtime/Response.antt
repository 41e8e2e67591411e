-- ===== src/Runtime/Response.antt =====
-- runtime/handler_models.go and runtime/handler_response.go.
pub mod Grouping
use shimmy_wasm_go.Base.{ℕ, String, Option, none, some, List, [], ◌∷◌, ◌++◌}
use shimmy_wasm_go.Json.{Value, object, string, strings, Fields, end, field, get, put}
use shimmy_wasm_go.Json.Codec.{Body, marshal}
use shimmy_wasm_go.Runtime.Command.{Header}
use shimmy_wasm_go.Runtime.Errors.{
  RuntimeError, invalid_method, schema_not_found, command_not_found, invalid_command,
  validation_failed, validation_error, other, request, response, FieldError, runtime_error_text,
}

pub record Request : Type 0 where
  pub path : String
  pub method : String
  pub body : Body
  pub header : Header

pub record Response : Type 0 where
  pub status_code : ℕ
  pub body : Body
  pub header : Header

-- `wellKnownErrors`, and the type test behind it
unfoldable pub get_error_status_code : RuntimeError → ℕ
get_error_status_code invalid_method = 405
get_error_status_code schema_not_found = 500
get_error_status_code command_not_found = 404
get_error_status_code invalid_command = 400
get_error_status_code validation_failed = 400
get_error_status_code (validation_error request errors) = 422
get_error_status_code (validation_error response errors) = 500
get_error_status_code (other e) = 500

abbrev pub descriptions : Option Value → List String
descriptions (some (strings ss)) = ss
descriptions _ = []

-- `Fields[f] = append(Fields[f], description)`, for each error
unfoldable pub error_fields : Fields → List FieldError → Fields
error_fields m [] = m
error_fields m (e ∷ es) =
    error_fields (put e.field (strings (descriptions (get e.field m) ++ e.description ∷ [])) m) es

abbrev validation_errors : RuntimeError → List FieldError
validation_errors (validation_error t errors) = errors
validation_errors _ = []

-- `json:"fields,omitempty"`; `error_thrown` is never set, so it is always left out
abbrev omit_empty : Fields → Fields
omit_empty end = end
omit_empty m = field "fields" (object m) end

unfoldable pub new_response : ℕ → Body → Response
new_response status body = record {
  status_code = status;
  body = body;
  header = ("Content-Type", "application/json" ∷ []) ∷ [];
}

unfoldable pub new_error_response : RuntimeError → Response
unfolding get_error_status_code error_fields runtime_error_text new_response
new_error_response e = new_response (get_error_status_code e) (
    marshal (
      some (
        field "error"
          (object (
            field "message" (string (runtime_error_text e))
              (omit_empty (error_fields end (validation_errors e)))))
          end)))
