-- ===== src/Http/Tests.antt =====
-- Runs of the routes, the handlers and the conversions between the two formats.
use shimmy_wasm_go.Base.{◌≡◌, refl, none, some}
use shimmy_wasm_go.Exec.{ok}
use shimmy_wasm_go.Json.{string, object, Fields, end, field, get}
use shimmy_wasm_go.Runtime.MuEd.{
  SubmissionType, Submission, Task, Configuration, EvaluateRequest, extract_content, content_key,
  build_legacy_evaluate_request, evaluate_feedback,
}
use shimmy_wasm_go.Runtime.MuEd

abbrev written : Submission
written = record { type = MuEd.text; content = some (field "text" (string "x + 1") end) }

abbrev evaluation : EvaluateRequest
evaluation = record {
  submission = written;
  task = some (record { reference_solution = some written });
  configuration = none;
  pre_submission_feedback = none;
}

abbrev legacy : Fields
legacy =
    field "response" (string "x + 1")
      (field "answer" (string "x + 1") (field "params" (object end) end))

legacy_built : build_legacy_evaluate_request evaluation ≡ ok legacy
unfolding build_legacy_evaluate_request get
legacy_built = refl
