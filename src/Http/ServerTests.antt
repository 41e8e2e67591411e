-- ===== src/Http/ServerTests.antt =====
-- Runs of the whole server.
use shimmy_wasm_go.Base.{
  has_suffix, codes, false, All, some, ℕ, suc, ◌≡◌, refl, true, none, [], ◌∷◌, List,
}
use shimmy_wasm_go.Json.{
  get, as_object, string, bool, object, slice, Items, nil, cons, Fields, end, field, Map,
}
use shimmy_wasm_go.Json.Codec.{to_json_fields, Body, document, empty_body}
use shimmy_wasm_go.Runtime.Command.{eval}
use shimmy_wasm_go.Runtime.Errors.{request, response}
use shimmy_wasm_go.Runtime.Cases.{is_false}
use shimmy_wasm_go.Runtime.Validate.{RuntimeHandler, validate, both_schemas}
use shimmy_wasm_go.Runtime.MuEd.{Submission, Task, to_evaluate_feedback, EvaluateRequest}
use shimmy_wasm_go.Runtime.MuEd
use shimmy_wasm_go.Http.Path.{evaluate, evaluate_health}
use shimmy_wasm_go.Http.Reply.{is_unauthorized, HttpRequest}
use shimmy_wasm_go.Http.MuEdHandler.{is_preview, legacy_body, feedback_reply}
use shimmy_wasm_go.Http.Server.{serve, serve_all}
use shimmy_wasm_go.Http.Server.Auth.{serve_all-unauthorized}
use shimmy_wasm_go.Http.Server.Evaluate.{serve-evaluated}
use shimmy_wasm_go.Exec.{Error, message, Result, ok, err}
use shimmy_wasm_go.Runtime.Schema
use shimmy_wasm_go.Runtime.Schema.{Schema, Validator}
use shimmy_wasm_go.Http.Server.Dedicated.{life, life-Stopped}
use shimmy_wasm_go.Runtime.Lifecycle.{as_runtime}
use shimmy_wasm_go.Execution.Supervisor.{
  Adapters, Supervisor, new, created, started, sent, stopping, cancelled, noop,
}
use shimmy_wasm_go.Execution.Supervisor.Ownership.{owned, IsOrderly}
use shimmy_wasm_go.Execution.Dispatcher.Pooled
use shimmy_wasm_go.Execution.Dispatcher.Pooled.{Pool, Dispatcher}

-- adapters whose function finds every response wrong
abbrev wrong : Map
wrong = some (field "result" (object (field "is_correct" (bool false) end)) end)

abbrev strict : Adapters ℕ
strict = record {
  create = λ n. (ok n, suc n);
  start = λ r n. (ok tt, n);
  send = λ r method m n. (ok wrong, n);
  stop = λ r n. (ok tt, n);
  wait = λ r n. (ok tt, n);
  cancel = λ r n. n;
}

abbrev accepting : Validator
accepting m = ok []

abbrev every_schema : Schema.Schema
every_schema = Schema.new (some accepting) (some accepting) (some accepting)

abbrev only_case : Fields
only_case = field "answer" (string "c") (field "feedback" (string "far") end)

abbrev body : Fields
body = field "response" (string "b") (
    field "answer" (string "a")
      (field "params" (object (field "cases" (slice (cons (object only_case) nil)) end)) end))

abbrev eval_request : HttpRequest
eval_request = record {
  path = "/";
  method = "POST";
  header = [];
  content = some (document (object body));
}

abbrev health_request : HttpRequest
health_request = record {
  path = "/stage/evaluate/health";
  method = "GET";
  header = [];
  content = some empty_body;
}

abbrev requests : List HttpRequest
requests = eval_request ∷ health_request ∷ []

abbrev undecodable : Body → Result Error EvaluateRequest
undecodable b = err (message "no")

abbrev last : Supervisor ℕ
last =
    life strict (both_schemas every_schema every_schema) "" undecodable (λ _. none) requests
      (new true 0)

-- One worker, which gets the message, the one for the case, and the health check.
last_trace :
    last.trace ≡ cancelled 0 ∷ stopping 0 ∷ sent 0 ∷ sent 0 ∷ sent 0 ∷ started 0 ∷ created 0 ∷ []
unfolding life shimmy_wasm_go.Execution.Dispatcher.Dedicated.start
    shimmy_wasm_go.Execution.Dispatcher.Dedicated.shut_down
    shimmy_wasm_go.Execution.Dispatcher.Dedicated.send shimmy_wasm_go.Runtime.Handler.handle
    shimmy_wasm_go.Runtime.Validate.validate Schema.new shimmy_wasm_go.Json.get
    shimmy_wasm_go.Runtime.Evaluate.evaluate_case shimmy_wasm_go.Json.has_key
    shimmy_wasm_go.Runtime.Evaluate.case_request
last_trace = refl

life-Stopped_example : IsOrderly last.trace × (owned last.trace ≡ none) × (last.worker_ref ≡ none)
life-Stopped_example =
    life-Stopped strict (both_schemas every_schema every_schema) "" undecodable (λ _. none) true 0
      requests

-- a pool of one supervisor, whose messages leave nothing to release
abbrev pool : Pool ℕ
pool = record {
  acquire = λ n. (ok 5, n);
  destroy = λ r n. n;
  release = λ r n. n;
  close = λ n. n;
  send = λ r method m n. (ok (record { data_out = wrong; release = noop; error = none }), suc n);
  run_release = λ r n. (ok tt, n);
}

abbrev fresh : Dispatcher ℕ
fresh = record { pool = 0; uses = []; pending = [] }

-- the runtime over the pooled dispatcher
abbrev pooled_handler : RuntimeHandler (Dispatcher ℕ)
pooled_handler = record {
  runtime = as_runtime record {
    dispatcher = record {
      start = Pooled.start pool;
      send = Pooled.send pool;
      shut_down = Pooled.shut_down pool;
    };
  };
  schemas = both_schemas every_schema every_schema;
}

-- requests of somebody without the key, to a legacy path and to a muEd path
abbrev strangers : List HttpRequest
strangers = requests

strangers_unauthorized : All (λ r. is_unauthorized "key" r.header ≡ true) strangers
unfolding is_unauthorized
strangers_unauthorized = (refl, (refl, tt))

serve_all-unauthorized_example :
    serve_all pooled_handler "key" undecodable (λ _. none) strangers fresh ≡ fresh
serve_all-unauthorized_example =
    serve_all-unauthorized pooled_handler "key" undecodable (λ _. none) strangers fresh
      strangers_unauthorized

-- an evaluation function that finds the response right, and counts what it is asked
abbrev pub right : Fields
right = field "is_correct" (bool true) (field "feedback" (string "well done") end)

abbrev pub answer : Fields
answer = field "result" (object right) end

abbrev pub praising : RuntimeHandler ℕ
praising = record {
  runtime = record { handle = λ c m n. (ok (some answer), suc n) };
  schemas = both_schemas every_schema every_schema;
}

abbrev pub submitted : Submission
submitted = record { type = MuEd.text; content = some (field "text" (string "x + 1") end) }

abbrev evaluation : EvaluateRequest
evaluation = record {
  submission = submitted;
  task = some (record { reference_solution = some submitted });
  configuration = none;
  pre_submission_feedback = none;
}

abbrev legacy : Fields
legacy =
    field "response" (string "x + 1")
      (field "answer" (string "x + 1") (field "params" (object end) end))

abbrev decoding : Body → Result Error EvaluateRequest
decoding b = ok evaluation

abbrev pub posted : HttpRequest
posted = record {
  path = "/compareSets/evaluate";
  method = "POST";
  header = ("Api-Key", "key" ∷ []) ∷ [];
  content = some (document (object end));
}

legacy_built : legacy_body evaluation ≡ ok legacy
unfolding legacy_body get
legacy_built = refl

pub posted_authorized : is_unauthorized "key" posted.header ≡ false
unfolding is_unauthorized
posted_authorized = refl

pub not_health : has_suffix evaluate_health (codes posted.path) ≡ false
unfolding has_suffix
not_health = refl

pub is_evaluate : has_suffix evaluate (codes posted.path) ≡ true
unfolding has_suffix
is_evaluate = refl

no_preview : is_preview evaluation ≡ false
unfolding is_preview
no_preview = refl

request_valid : validate praising request eval (some (to_json_fields legacy)) ≡ ok tt
unfolding validate Schema.new
request_valid = refl

answer_valid : validate praising response eval (some answer) ≡ ok tt
unfolding validate Schema.new
answer_valid = refl

pub answer_result : as_object (get "result" (to_json_fields answer)) ≡ some right
unfolding get to_json_fields
answer_result = refl

right-right : is_false (get "is_correct" right) ≡ false
unfolding get
right-right = refl

serve-evaluated_example :
    serve praising "key" decoding (λ _. none) posted 0
    ≡ (some (feedback_reply (to_evaluate_feedback (to_json_fields right))), 1)
serve-evaluated_example =
    serve-evaluated praising "key" decoding (λ _. none) posted (document (object end)) evaluation
      legacy answer right 0 1 refl not_health is_evaluate posted_authorized refl refl refl
      no_preview legacy_built request_valid refl answer_valid answer_result right-right
