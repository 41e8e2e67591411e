-- ===== src/Runtime/Validate/Laws.antt =====
-- When `validate` fails.
use shimmy_wasm_go.Base.{◌≡◌, ◌≢◌, arith, Option, none, some, List}
use shimmy_wasm_go.Exec.{Error, Result, ok, err, panics}
use shimmy_wasm_go.Json.{Map}
use shimmy_wasm_go.Runtime.Command.{Command, preview, eval, healthcheck}
use shimmy_wasm_go.Runtime.Errors.{ValidationType, request, response, command_not_found, FieldError}
use shimmy_wasm_go.Runtime.Schema
use shimmy_wasm_go.Runtime.Schema.{Schema, SchemaType, SchemaFile, Validator}
use shimmy_wasm_go.Runtime.Validate.{
  Runtime, RuntimeHandler, validate, new_runtime_handler, check, verdict, both_schemas,
  get_schema_type,
}

check-ne :
    (t : ValidationType) (o : Option Schema) (c : Command) (m : Map)
    → check t o c m ≢ err command_not_found
unfolding get_schema_type Schema.validate
check-ne t o c m e = ground arith

-- A validator that comes back with a verdict or an error.
abbrev pub Calm : Validator → Type 0
Calm v = (m : Map) → v m ≢ panics

verdict-ne-panics :
    (t : ValidationType) (o : Result Error (List FieldError)) → o ≢ panics → verdict t o ≢ panics
verdict-ne-panics t o n e = ground arith

module _ {S : Type 0} where
  pub validate-ne-command_not_found :
      (h : RuntimeHandler S) (t : ValidationType) (c : Command) (m : Map)
      → validate h t c m ≢ err command_not_found
  unfolding validate
  validate-ne-command_not_found h request healthcheck m e = cc
  validate-ne-command_not_found h t c m e = ground arith

  -- The handler has one compiled schema for each file.
  compiled :
      (new_schema : SchemaFile → Result Error Validator) (rt : Runtime S) (h : RuntimeHandler S)
      → new_runtime_handler new_schema rt ≡ ok h
      → (v₁ v₂ v₃ v₄ v₅ : Validator) × (new_schema SchemaFile.request_eval ≡ ok v₁)
        × (new_schema SchemaFile.request_preview ≡ ok v₂)
        × (new_schema SchemaFile.response_eval ≡ ok v₃)
        × (new_schema SchemaFile.response_preview ≡ ok v₄)
        × (new_schema SchemaFile.response_health ≡ ok v₅)
        × (h ≡ record {
          runtime = rt;
          schemas =
              both_schemas
                (Schema.new (some v₁) (some v₂) none)
                (Schema.new (some v₃) (some v₄) (some v₅));
        })
  unfolding new_runtime_handler
  compiled new_schema rt h made = ground arith

  made_validate-ne-panics :
      (rt : Runtime S) (v₁ v₂ v₃ v₄ v₅ : Validator)
      → Calm v₁
      → Calm v₂
      → Calm v₃
      → Calm v₄
      → Calm v₅
      → (t : ValidationType) (c : Command) (m : Map)
      → validate
          (record {
            runtime = rt;
            schemas =
                both_schemas
                  (Schema.new (some v₁) (some v₂) none)
                  (Schema.new (some v₃) (some v₄) (some v₅));
          })
          t
          c
          m
        ≢ panics
  unfolding validate Schema.new
  made_validate-ne-panics rt v₁ v₂ v₃ v₄ v₅ k₁ k₂ k₃ k₄ k₅ request healthcheck m e = cc
  made_validate-ne-panics rt v₁ v₂ v₃ v₄ v₅ k₁ k₂ k₃ k₄ k₅ request eval m e =
      verdict-ne-panics request (v₁ m) (k₁ m) e
  made_validate-ne-panics rt v₁ v₂ v₃ v₄ v₅ k₁ k₂ k₃ k₄ k₅ request preview m e =
      verdict-ne-panics request (v₂ m) (k₂ m) e
  made_validate-ne-panics rt v₁ v₂ v₃ v₄ v₅ k₁ k₂ k₃ k₄ k₅ request (Command.other s) m e = cc
  made_validate-ne-panics rt v₁ v₂ v₃ v₄ v₅ k₁ k₂ k₃ k₄ k₅ response eval m e =
      verdict-ne-panics response (v₃ m) (k₃ m) e
  made_validate-ne-panics rt v₁ v₂ v₃ v₄ v₅ k₁ k₂ k₃ k₄ k₅ response preview m e =
      verdict-ne-panics response (v₄ m) (k₄ m) e
  made_validate-ne-panics rt v₁ v₂ v₃ v₄ v₅ k₁ k₂ k₃ k₄ k₅ response healthcheck m e =
      verdict-ne-panics response (v₅ m) (k₅ m) e
  made_validate-ne-panics rt v₁ v₂ v₃ v₄ v₅ k₁ k₂ k₃ k₄ k₅ response (Command.other s) m e = cc

  -- The request schema of the health check is nil. It is never used: if the compiled schemas do
  -- not panic, neither does a validation by the handler that is made from them.
  pub validate-ne-panics :
      (new_schema : SchemaFile → Result Error Validator) (rt : Runtime S) (h : RuntimeHandler S)
      → ((f : SchemaFile) (v : Validator) → new_schema f ≡ ok v → Calm v)
      → new_runtime_handler new_schema rt ≡ ok h
      → (t : ValidationType) (c : Command) (m : Map) → validate h t c m ≢ panics
  unfolding validate new_runtime_handler Schema.new
  validate-ne-panics new_schema rt h calm made t c m e =
      let (v₁, v₂, v₃, v₄, v₅, p₁, p₂, p₃, p₄, p₅, q) = compiled new_schema rt h made in
      made_validate-ne-panics rt v₁ v₂ v₃ v₄ v₅ (calm _ v₁ p₁) (calm _ v₂ p₂) (calm _ v₃ p₃)
        (calm _ v₄ p₄) (calm _ v₅ p₅) t c m (rw q at e)
