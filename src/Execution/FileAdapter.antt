-- ===== src/Execution/FileAdapter.antt =====
-- internal/execution/supervisor/adapter_file.go: a message goes to a worker of its own through a
-- request and a response file. What the system, the worker factory and the worker answer are
-- arguments.
pub mod Answer
pub mod Cleanup
use shimmy_wasm_go.Base.{
  ℕ, String, Bool, true, false, Option, none, some, List, [], ◌∷◌, ◌++◌, if◌then◌else◌,
}
use shimmy_wasm_go.Exec.{Error, message, wrap, Result, ok, err, panics, Exec, ◌<>◌}
use shimmy_wasm_go.Json.{Value, string, object, Fields, end, field, Map}
use shimmy_wasm_go.Json.Codec.{Body, document, to_json, map_value}
use shimmy_wasm_go.Execution.Worker.{StartConfig}
use shimmy_wasm_go.Execution.Worker.Exit.{ExitEvent, success}

-- What is done to files and directories, newest first.
pub data FileEvent : Type 0 where
  made_dir created removed not_removed closed not_closed : String → FileEvent
  written : String → Body → FileEvent

-- What answers the calls of `Send`: `os.Mkdir` with whether its error is that the directory exists,
-- the names or the errors of the temporary directory and files, the encoder, the close of the
-- request file, the worker's calls, the decoder on the response file, the close of that, and the
-- removal of a file.
pub record Answers : Type 0 where
  pub mkdir : Option (Error × Bool)
  pub mkdir_temp : Result Error String
  pub request : Result Error String
  pub response : Result Error String
  pub encode : Option Error
  pub close : Option Error
  pub worker_factory : Option (StartConfig → Option Error)
  pub read_pipe : Option Error
  pub launch : Option Error
  pub exit : Result Error ExitEvent
  pub exit_text : String
  pub decode : Result Error Map
  pub close_response : Option Error
  pub remove : String → Option Error

-- `fileAdapter`, with the configuration of the worker of the last message
pub record FileAdapter : Type 0 where
  pub start_params : StartConfig
  pub worker : Option StartConfig
  pub files : List FileEvent

abbrev Act : Type 0 → Type 0
Act A = Exec Error FileAdapter A

-- `Start`, which only keeps the configuration
unfoldable pub start : StartConfig → Act (Unit {0})
start params a = (ok tt, record a { start_params = params })

-- `Stop`
unfoldable pub stop : Act (Unit {0})
stop a = (ok tt, a)

abbrev log : FileEvent → FileAdapter → FileAdapter
log e a = record a { files = e ∷ a.files }

abbrev list_or_empty : Option (List String) → List String
list_or_empty none = []
list_or_empty (some env) = env

-- the configuration of the worker for a message
unfoldable pub worker_params : StartConfig → String → String → StartConfig
worker_params c req res = record c {
  args = c.args ++ req ∷ res ∷ [];
  env = some (
      list_or_empty c.env
      ++ "EVAL_IO=FILE"
        ∷ ("EVAL_FILE_NAME_REQUEST=" <> req)
        ∷ ("EVAL_FILE_NAME_RESPONSE=" <> res)
        ∷ []);
}

-- the message as the request file has it
abbrev pub request_body : String → Map → Body
request_body method m =
    document (to_json (object (field "command" (string method) (field "params" (map_value m) end))))

abbrev decoded : Result Error Map → Result Error Map
decoded (ok m) = ok m
decoded (err e) = err (wrap "error decoding response data" e)
decoded panics = panics

-- from the exit of the worker on
abbrev exited : Answers → Result Error ExitEvent → Result Error Map
exited sys (err e) = err (wrap "error waiting for process" e)
exited sys panics = panics
exited sys (ok e) =
    if success e
    then decoded sys.decode
    else err (message ("process exited with non-zero code: " <> sys.exit_text))

-- from the worker's pipe on
abbrev worked : Answers → Result Error Map
worked sys = elim sys.read_pipe [
  | some e ↦ err (wrap "error getting read pipe" e)
  | none ↦ elim sys.launch [
    | some e ↦ err (wrap "error starting process" e)
    | none ↦ exited sys sys.exit
  ]
]

-- from the worker factory on
abbrev with_worker : Answers → StartConfig → Option Error → Act Map
with_worker sys c (some e) a = (err (wrap "error creating worker" e), a)
with_worker sys c none a = (worked sys, record a { worker = some c })

-- `Send` between the two files and their removal
unfoldable pub exchange :
    Answers → (StartConfig → Option Error) → String → Map → String → String → Act Map
unfolding worker_params
exchange sys factory method m req res a = elim sys.encode [
  | some e ↦ (err (wrap "error writing request data" e), a)
  | none ↦
      let b = log (written req (request_body method m)) a in
      elim sys.close [
        | some e ↦ (err (wrap "error closing request file" e), b)
        | none ↦
            let c = worker_params a.start_params req res in
            with_worker sys c (factory c) (log (closed req) b)
      ]
]

-- `os.Remove` and the close of the response file, whose errors are logged
abbrev pub removal : Answers → String → FileEvent
removal sys s = elim (sys.remove s) [ none ↦ removed s | some e ↦ not_removed s ]

abbrev pub closing : Answers → String → FileEvent
closing sys s = elim sys.close_response [ none ↦ closed s | some e ↦ not_closed s ]

-- a deferred call: it runs whatever the body returns, also behind a panic
abbrev pub deferred :
    {A : Type 0} → FileEvent → Result Error A × FileAdapter → Result Error A × FileAdapter
deferred e (r, a) = (r, log e a)

-- from the response file on: it is removed and then closed
abbrev with_response :
    Answers → (StartConfig → Option Error) → String → Map → String → Result Error String → Act Map
with_response sys factory method m req (err e) a = (err (wrap "error creating temp file" e), a)
with_response sys factory method m req panics a = (panics, a)
with_response sys factory method m req (ok res) a =
    deferred (closing sys res)
      (deferred (removal sys res) (exchange sys factory method m req res (log (created res) a)))

-- from the request file on: it is removed
abbrev with_request :
    Answers → (StartConfig → Option Error) → String → Map → Result Error String → Act Map
with_request sys factory method m (err e) a = (err (wrap "error creating temp file" e), a)
with_request sys factory method m panics a = (panics, a)
with_request sys factory method m (ok req) a =
    deferred (removal sys req)
      (with_response sys factory method m req sys.response (log (created req) a))

-- from the temporary directory on, which nothing removes
abbrev with_dir :
    Answers → (StartConfig → Option Error) → String → Map → Result Error String → Act Map
with_dir sys factory method m (err e) a = (err (wrap "error creating temp dir" e), a)
with_dir sys factory method m panics a = (panics, a)
with_dir sys factory method m (ok dir) a =
    with_request sys factory method m sys.request (log (made_dir dir) a)

abbrev with_factory :
    Answers → (StartConfig → Option Error) → String → Map → Option (Error × Bool) → Act Map
with_factory sys factory method m none a = with_dir sys factory method m sys.mkdir_temp a
with_factory sys factory method m (some (e, true)) a =
    with_dir sys factory method m sys.mkdir_temp a
with_factory sys factory method m (some (e, false)) a =
    (err (wrap "error creating working dir" e), a)

-- `Send`
unfoldable pub send : Answers → String → Map → Act Map
unfolding exchange
send sys method m a = elim sys.worker_factory [
  | none ↦ (err (message "no worker factory provided"), a)
  | some factory ↦ with_factory sys factory method m sys.mkdir a
]
