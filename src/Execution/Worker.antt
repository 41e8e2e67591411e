-- ===== src/Execution/Worker.antt =====
-- internal/execution/worker/worker.go: a worker is a process of the operating system. What the
-- system answers is an argument of each call.
pub mod Exit
pub mod Order
pub mod Reaper
pub mod Command
use shimmy_wasm_go.Base.{
  ℕ, zero, String, Bool, true, false, Option, none, some, List, [], ◌∷◌, if◌then◌else◌,
}
use shimmy_wasm_go.Exec.{Error, sentinel, message, wrap, Result, ok, err, panics, Exec}
use shimmy_wasm_go.Json.{ℤ}

-- `StartConfig`
pub record StartConfig : Type 0 where
  pub cmd : String
  pub cwd : String
  pub args : List String
  pub env : Option (List String)

pub data Stream : Type 0 where
  stdin stdout : Stream

-- What was done to the process, newest first.
pub data Event : Type 0 where
  launched : ℕ → Event
  piped : Stream → Event
  signalled : Bool → Event
  awaited : Event

-- `ProcessWorker`: `cmd.Process`, whether `cmd` has its streams already, and whether the channel
-- `wait` is closed.
pub record Worker : Type 0 where
  pub process : Option ℕ
  pub stdin_set : Bool
  pub stdout_set : Bool
  pub stderr_set : Bool
  pub wait_closed : Bool
  pub trace : List Event

-- `NewProcessWorker`
abbrev pub new : Worker
new = record {
  process = none;
  stdin_set = false;
  stdout_set = false;
  stderr_set = false;
  wait_closed = false;
  trace = [];
}

abbrev Act : Type 0 → Type 0
Act A = Exec Error Worker A

abbrev pub already_started : Error
already_started = sentinel "worker already started"

-- `cmd.Start`, for the process number or the error of the system
abbrev launching : Worker → Result Error ℕ → Result Error (Unit {0}) × Worker
launching w (ok pid) = (ok tt, record w { process = some pid; trace = launched pid ∷ w.trace })
launching w (err e) = (err (wrap "failed to start process" e), w)
launching w panics = (panics, w)

-- `cmd.StderrPipe`, and what `Start` does behind it
abbrev with_stderr : Worker → Option Error → Result Error ℕ → Result Error (Unit {0}) × Worker
with_stderr w (some e) launch = (err (wrap "failed to get stderr pipe" e), w)
with_stderr w none launch =
    if w.stderr_set
    then (err (wrap "failed to get stderr pipe" (message "exec: Stderr already set")), w)
    else launching (record w { stderr_set = true }) launch

-- `Start`, for the error of the context, of the pipe for stderr, and the answer of the system
unfoldable pub start : Option Error → Option Error → Result Error ℕ → Act (Unit {0})
start context pipe launch w = elim w.process [
  | some pid ↦ (err already_started, w)
  | none ↦ elim context [
    | some e ↦ (err (wrap "won't start process" e), w)
    | none ↦ with_stderr w pipe launch
  ]
]

-- `Wait` and `WaitFor`, for what comes first: the end of the context or the exit event.
unfoldable pub wait : {A : Type 0} → Result Error A → Act A
wait first w =
    if w.wait_closed
    then (err (message "wait has already been called"), w)
    else (first, record w { wait_closed = true; trace = awaited ∷ w.trace })

-- `halt`; a signal that fails is logged
unfoldable pub halt : Bool → Act (Unit {0})
halt force w = elim w.process [
  | none ↦ (err (message "process is not running"), w)
  | some pid ↦ (ok tt, record w { trace = signalled force ∷ w.trace })
]

-- `Stop` and `Kill`
unfoldable pub stop : Act (Unit {0})
unfolding halt
stop = halt false

unfoldable pub kill : Act (Unit {0})
unfolding halt
kill = halt true

-- `Pid`
unfoldable pub pid : Worker → ℕ
pid w = elim w.process [ none ↦ zero | some n ↦ n ]

-- `cmd.StdoutPipe` and `cmd.StdinPipe` behind their test, for an error of the system
abbrev stdout_pipe : Option Error → Act (Unit {0})
stdout_pipe pipe w =
    if w.stdout_set then (err (message "exec: Stdout already set"), w) else elim pipe [
      | some e ↦ (err e, w)
      | none ↦ (ok tt, record w { stdout_set = true; trace = piped stdout ∷ w.trace })
    ]

abbrev stdin_pipe : Option Error → Act (Unit {0})
stdin_pipe pipe w =
    if w.stdin_set then (err (message "exec: Stdin already set"), w) else elim pipe [
      | some e ↦ (err e, w)
      | none ↦ (ok tt, record w { stdin_set = true; trace = piped stdin ∷ w.trace })
    ]

abbrev failing : String → Result Error (Unit {0}) × Worker → Result Error (Unit {0}) × Worker
failing s (ok a, w) = (ok a, w)
failing s (err e, w) = (err (wrap s e), w)
failing s (panics, w) = (panics, w)

-- `ReadPipe`
unfoldable pub read_pipe : Option Error → Act (Unit {0})
read_pipe pipe w = elim w.process [
  | some pid ↦ (err already_started, w)
  | none ↦ failing "failed to get stdout pipe" (stdout_pipe pipe w)
]

-- `WritePipe`
unfoldable pub write_pipe : Option Error → Act (Unit {0})
write_pipe pipe w = elim w.process [
  | some pid ↦ (err already_started, w)
  | none ↦ failing "failed to get stdin pipe" (stdin_pipe pipe w)
]

abbrev then_stdout :
    Option Error → Result Error (Unit {0}) × Worker → Result Error (Unit {0}) × Worker
then_stdout pipe (ok a, w) = failing "failed to get stdout pipe" (stdout_pipe pipe w)
then_stdout pipe (err e, w) = (err (wrap "failed to get stdin pipe" e), w)
then_stdout pipe (panics, w) = (panics, w)

-- `DuplexPipe`, for an error of the system at either stream
unfoldable pub duplex_pipe : Option Error → Option Error → Act (Unit {0})
duplex_pipe input output w = elim w.process [
  | some pid ↦ (err already_started, w)
  | none ↦ then_stdout output (stdin_pipe input w)
]
