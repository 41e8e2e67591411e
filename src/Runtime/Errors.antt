-- ===== src/Runtime/Errors.antt =====
-- The errors of runtime/handler.go and runtime/handler_validate.go.
use shimmy_wasm_go.Base.{String, List}
use shimmy_wasm_go.Exec.{Error, error_text, Result, ok, err, panics, ◌<>◌}

pub data ValidationType : Type 0 where
  request response : ValidationType

-- `ValidationType.String`
abbrev pub type_text : ValidationType → String
type_text request = "request"
type_text response = "response"

-- `gojsonschema.ResultError`
pub record FieldError : Type 0 where
  pub field : String
  pub description : String

pub data RuntimeError : Type 0 where
  invalid_method schema_not_found command_not_found invalid_command validation_failed : RuntimeError
  validation_error : ValidationType → List FieldError → RuntimeError
  other : Error → RuntimeError

-- `err.Error()`
unfoldable pub runtime_error_text : RuntimeError → String
unfolding error_text
runtime_error_text invalid_method = "invalid method"
runtime_error_text schema_not_found = "schema not found"
runtime_error_text command_not_found = "command not found"
runtime_error_text invalid_command = "invalid command"
runtime_error_text validation_failed = "validation failed"
runtime_error_text (validation_error t errors) = type_text t <> " validation error"
runtime_error_text (other e) = error_text e

abbrev pub as_other {ℓ} : {A : Type ℓ} → Result Error A → Result RuntimeError A
as_other (ok a) = ok a
as_other (err e) = err (other e)
as_other panics = panics
