-- ===== src/Http/PreviewTests.antt =====
-- A preview on the whole server.
use shimmy_wasm_go.Base.{some, none, true}
use shimmy_wasm_go.Exec.{Error, Result, ok}
use shimmy_wasm_go.Json.{string, object, Fields, end, field}
use shimmy_wasm_go.Json.Codec.{Body}
use shimmy_wasm_go.Runtime.MuEd.{EvaluateRequest}
use shimmy_wasm_go.Runtime.Schema
use shimmy_wasm_go.Http.ServerTests.{submitted}

-- the draft of an answer, to a task without a reference solution
abbrev draft : EvaluateRequest
draft = record {
  submission = submitted;
  task = none;
  configuration = none;
  pre_submission_feedback = some (record { enabled = true });
}

abbrev legacy : Fields
legacy = field "response" (string "x + 1") (field "params" (object end) end)

abbrev decoding : Body → Result Error EvaluateRequest
decoding b = ok draft
