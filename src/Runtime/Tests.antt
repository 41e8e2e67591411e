-- ===== src/Runtime/Tests.antt =====
-- Runs of the runtime handler on a small evaluation function, which compares the response with the
-- answer and counts its calls.
use shimmy_wasm_go.Runtime.Handler.Plain.{IsAnswer, handle-IsAnswer}
use shimmy_wasm_go.Base.{
  ℕ, suc, String, ◌≡◌, ◌≢◌, refl, ◌⊎◌, inr, true, false, Option, none, some, List, [], ◌∷◌, str_eq,
  arith,
}
use shimmy_wasm_go.Exec.{ok, Result, panics, Error}
use shimmy_wasm_go.Json.{
  Value, null, bool, float64, int, string, slice, object, case_warnings, Items, nil, cons, Fields,
  end, field, Map, get, entries, as_string, Float64, as_object, as_slice, CaseWarning, pos,
}
use shimmy_wasm_go.Json.Codec.{document, unmarshal, marshal}
use shimmy_wasm_go.Runtime.Command.{eval, healthcheck, parse_command, get_command}
use shimmy_wasm_go.Runtime.Schema.{SchemaFile, Validator}
use shimmy_wasm_go.Runtime.Schema
use shimmy_wasm_go.Runtime.Validate.Laws.{Calm, validate-ne-panics}
use shimmy_wasm_go.Runtime.Validate.{
  new_runtime_handler, Runtime, RuntimeHandler, both_schemas, validate,
}
use shimmy_wasm_go.Runtime.Response.{Request, Response, new_error_response}
use shimmy_wasm_go.Runtime.Handler.{handle}
use shimmy_wasm_go.Runtime.Cases.{process_eval, get_case_feedback, find_first_matching_case, Search}
use shimmy_wasm_go.Runtime.Errors.{FieldError, validation_error, request, response}
use shimmy_wasm_go.Runtime.Send.{send_command}
use shimmy_wasm_go.Json.Laws.{ne_of_str_eq}
use shimmy_wasm_go.Runtime.Handler.Unasked.{handle_unasked}
use shimmy_wasm_go.Runtime.Handler.Status.{IsFailure, handle_status}
use shimmy_wasm_go.Runtime.Cases.Result.{
  process_eval-cases, process_eval-other, marked, field_of, warnings_of,
}
use shimmy_wasm_go.Runtime.Cases.First.{StopsAtFirst, find_first_matching_case-StopsAtFirst}
use shimmy_wasm_go.Runtime.Cases.Warnings.{Below, get_case_feedback-warnings}
use shimmy_wasm_go.Runtime.Send.Gate.{send_command-valid}

abbrev text_of : String → Fields → String
text_of k m = elim (as_string (get k m)) [ none ↦ "" | some s ↦ s ]

abbrev verdict : Fields → Map
verdict m = some (
    field "result"
      (object (field "is_correct" (bool (str_eq (text_of "response" m) (text_of "answer" m))) end))
      end)

abbrev comparing : Runtime ℕ
comparing = record { handle = λ c m s. (ok (verdict (entries m)), suc s) }

abbrev accepting : Validator
accepting m = ok []

abbrev missing : FieldError
missing = record { field = "response"; description = "response is required" }

abbrev refusing : Validator
refusing m = ok (missing ∷ [])

abbrev every_schema : Schema.Schema
every_schema = Schema.new (some accepting) (some accepting) (some accepting)

abbrev handler : RuntimeHandler ℕ
handler = record { runtime = comparing; schemas = both_schemas every_schema every_schema }

abbrev one : Value
one = float64 (record { negative = false; mantissa = 1; halvings = 0 })

abbrev near_case : Fields
near_case = field "answer" (string "b") (field "feedback" (string "close") (field "mark" one end))

abbrev far_case : Fields
far_case = field "answer" (string "c") (field "feedback" (string "far") end)

abbrev cases : Items
cases = cons (object far_case) (cons (object near_case) nil)

abbrev params : Fields
params = field "cases" (slice cases) end

abbrev body : Fields
body =
    field "response" (string "b") (field "answer" (string "a") (field "params" (object params) end))

abbrev good : Request
good = record { path = "/"; method = "POST"; body = document (object body); header = [] }

abbrev wrong : Fields
wrong = field "is_correct" (bool false) end

abbrev answer : Fields
answer =
    field "result"
      (object (
        field "is_correct" (bool true)
          (field "feedback" (string "close") (field "matched_case" one end))))
      end

abbrev reply : Response
reply = record {
  status_code = 200;
  body = document (object answer);
  header = ("Content-Type", "application/json" ∷ []) ∷ [];
}

-- the second case is the answer that the response is
handled : handle handler good 0 ≡ (some reply, 3)
unfolding handle unmarshal validate Schema.new marshal get
    shimmy_wasm_go.Runtime.Evaluate.evaluate_case shimmy_wasm_go.Json.has_key
    shimmy_wasm_go.Runtime.Evaluate.case_request shimmy_wasm_go.Json.put
    shimmy_wasm_go.Json.set_item
handled = refl

handle_status_example : (reply.status_code ≡ 200) ⊎ IsFailure reply.status_code
handle_status_example = handle_status handler good 0 reply 3 handled

abbrev processed : Fields
processed =
    field "is_correct" (bool true)
      (field "feedback" (string "close") (field "matched_case" (int (pos 1)) end))

process_eval_run : process_eval handler good eval body wrong 0 ≡ (ok processed, 2)
unfolding process_eval get shimmy_wasm_go.Runtime.Evaluate.evaluate_case shimmy_wasm_go.Json.has_key
    send_command shimmy_wasm_go.Runtime.Evaluate.case_request marshal validate Schema.new
    shimmy_wasm_go.Json.put shimmy_wasm_go.Json.set_item
process_eval_run = refl

process_eval-cases_example :
    (m : Option Fields) × (ws : List CaseWarning) × (get_case_feedback handler good eval params
        cases 0
      ≡ (ok (m, ws), 2))
    × (get "is_correct" processed ≡ some (bool (marked m)))
    × (get "feedback" processed ≡ field_of "feedback" m (get "feedback" wrong))
    × (get "matched_case" processed ≡ field_of "id" m (get "matched_case" wrong))
    × (get "warnings" processed ≡ warnings_of ws (get "warnings" wrong))
unfolding get
process_eval-cases_example =
    process_eval-cases handler good eval body wrong params (object far_case)
      (cons (object near_case) nil) 0 processed 2 refl refl refl process_eval_run

abbrev graded : Fields
graded = field "is_correct" (bool false) (field "grade" one end)

abbrev graded_out : Fields
graded_out =
    field "is_correct" (bool true) (
      field "grade" one
        (field "feedback" (string "close") (field "matched_case" (int (pos 1)) end)))

process_eval-graded : process_eval handler good eval body graded 0 ≡ (ok graded_out, 2)
unfolding process_eval get shimmy_wasm_go.Runtime.Evaluate.evaluate_case shimmy_wasm_go.Json.has_key
    send_command shimmy_wasm_go.Runtime.Evaluate.case_request marshal validate Schema.new
    shimmy_wasm_go.Json.put shimmy_wasm_go.Json.set_item
process_eval-graded = refl

process_eval-other_example : get "grade" graded_out ≡ get "grade" graded
process_eval-other_example =
    process_eval-other handler good eval "grade" body graded 0 graded_out 2
      (record {
        no_warnings = ne_of_str_eq "warnings" "grade" refl;
        no_feedback = ne_of_str_eq "feedback" "grade" refl;
        no_matched_case = ne_of_str_eq "matched_case" "grade" refl;
        no_is_correct = ne_of_str_eq "is_correct" "grade" refl;
      })
      process_eval-graded

abbrev search : Search
search = record { matches = 1 ∷ []; feedback = "" ∷ []; warnings = []; cases = cases }

searched : find_first_matching_case handler good eval params cases 0 ≡ (ok search, 2)
unfolding find_first_matching_case shimmy_wasm_go.Runtime.Evaluate.evaluate_case
    shimmy_wasm_go.Json.has_key send_command shimmy_wasm_go.Runtime.Evaluate.case_request marshal
    validate Schema.new shimmy_wasm_go.Json.put shimmy_wasm_go.Json.set_item
searched = refl

find_first_matching_case-StopsAtFirst_example :
    StopsAtFirst handler good eval params
      (record { matches = []; feedback = []; warnings = []; cases = cases })
      0
      cases
      0
      search
      2
find_first_matching_case-StopsAtFirst_example =
    find_first_matching_case-StopsAtFirst handler good eval params cases 0 search 2 searched

-- a case without an answer, which gets a warning
abbrev bare_cases : Items
bare_cases = cons (object (field "feedback" (string "none") end)) nil

abbrev bare_out : Option Fields × List CaseWarning
bare_out = (none, record { message = "Missing answer field"; case = 0 } ∷ [])

bare_run : get_case_feedback handler good eval params bare_cases 0 ≡ (ok bare_out, 0)
unfolding get_case_feedback shimmy_wasm_go.Runtime.Evaluate.evaluate_case
    shimmy_wasm_go.Json.has_key
bare_run = refl

get_case_feedback-warnings_example :
    (w : Search) × (u : ℕ) × (find_first_matching_case handler good eval params bare_cases 0
      ≡ (ok w, u))
    × (bare_out.1 ≡ w.warnings)
    × Below 1 bare_out.1
get_case_feedback-warnings_example =
    get_case_feedback-warnings handler good eval params bare_cases 0 bare_out 0 bare_run

-- a function whose schema finds an error in each request
abbrev strict : RuntimeHandler ℕ
strict = record handler {
  schemas = both_schemas (Schema.new (some refusing) (some refusing) none) every_schema;
}

abbrev calls_after : ℕ
calls_after = 0

abbrev refused : Response
refused = new_error_response (validation_error request (missing ∷ []))

strict_handles : handle strict good 0 ≡ (some refused, 0)
unfolding handle unmarshal validate Schema.new
strict_handles = refl

refused_status : refused.status_code ≡ 422
unfolding new_error_response
refused_status = refl

handle_unasked_example : calls_after ≡ 0
handle_unasked_example =
    handle_unasked strict good 0 refused calls_after strict_handles (inr refused_status)

-- an evaluation function that answers with an error
abbrev failing : RuntimeHandler ℕ
failing = record handler {
  runtime = record { handle = λ c m s. (ok (some (field "error" (string "no") end)), suc s) };
}

failing_sends :
    send_command good eval failing 0 ≡ (ok (document (object (field "error" (string "no") end))), 1)
unfolding send_command unmarshal validate Schema.new marshal
failing_sends = refl

eval_command : parse_command (get_command good.header).0 ≡ some eval
unfolding parse_command get_command
eval_command = refl

abbrev plain : Map
plain = some (field "response" (string "b") (field "answer" (string "b") end))

abbrev plain_request : Request
plain_request = record good { body = document (object (entries plain)) }

plain_sends :
    send_command plain_request eval handler 0 ≡ (ok (marshal (verdict (entries plain))), 1)
unfolding send_command unmarshal validate Schema.new
plain_sends = refl

send_command-valid_example :
    (m : Map) × (given : Map) × (unmarshal plain_request.body ≡ ok m)
    × (validate handler request eval m ≡ ok tt)
    × (handler.runtime.handle eval m 0 ≡ (ok given, 1))
    × (validate handler response eval given ≡ ok tt)
    × (marshal (verdict (entries plain)) ≡ marshal given)
send_command-valid_example =
    send_command-valid handler plain_request eval 0 (marshal (verdict (entries plain))) 1
      plain_sends

abbrev compiling : SchemaFile → Result Error Validator
compiling f = ok accepting

compiling-Calm : (f : SchemaFile) (v : Validator) → compiling f ≡ ok v → Calm v
compiling-Calm f v e m p = absurd (ground arith)

abbrev compiled : RuntimeHandler ℕ
compiled = record {
  runtime = comparing;
  schemas = both_schemas (Schema.new (some accepting) (some accepting) none) every_schema;
}

compiles : new_runtime_handler compiling comparing ≡ ok compiled
unfolding new_runtime_handler
compiles = refl

validate-ne-panics_example : validate compiled request healthcheck none ≢ panics
validate-ne-panics_example =
    validate-ne-panics compiling comparing compiled compiling-Calm compiles request healthcheck none

handle-IsAnswer_example : IsAnswer reply.body
handle-IsAnswer_example = handle-IsAnswer handler good 0 reply 3 handled
