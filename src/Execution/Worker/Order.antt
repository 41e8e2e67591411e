-- ===== src/Execution/Worker/Order.antt =====
-- In which order a worker's process sees what is done to it.
use shimmy_wasm_go.Base.{
  ℕ, ◌≡◌, ◌≢◌, refl, Bool, true, false, Option, none, some, List, [], ◌∷◌, arith,
}
use shimmy_wasm_go.Exec.{Error, message, wrap, Result, err}
use shimmy_wasm_go.Execution.Worker.{
  Stream, stdin, stdout, Event, launched, piped, signalled, awaited, Worker, new, start, wait, halt,
  stop, kill, read_pipe, write_pipe, duplex_pipe,
}

-- the process of the trace, and whether it has a stream piped or is awaited
abbrev pub launched_in : List Event → Option ℕ
launched_in [] = none
launched_in (launched n ∷ t) = some n
launched_in (_ ∷ t) = launched_in t

abbrev pub has_pipe : Stream → List Event → Bool
has_pipe s [] = false
has_pipe stdin (piped stdin ∷ t) = true
has_pipe stdout (piped stdout ∷ t) = true
has_pipe s (_ ∷ t) = has_pipe s t

abbrev pub is_awaited : List Event → Bool
is_awaited [] = false
is_awaited (awaited ∷ t) = true
is_awaited (_ ∷ t) = is_awaited t

-- One process is launched at most, a stream is piped before that and at most once, a signal is
-- sent only behind it, and one call waits at most.
abbrev pub IsOrderly : List Event → Type 0
IsOrderly [] = Unit
IsOrderly (launched n ∷ t) = (launched_in t ≡ none) × IsOrderly t
IsOrderly (piped s ∷ t) = (launched_in t ≡ none) × (has_pipe s t ≡ false) × IsOrderly t
IsOrderly (signalled f ∷ t) = (launched_in t ≢ none) × IsOrderly t
IsOrderly (awaited ∷ t) = (is_awaited t ≡ false) × IsOrderly t

pub record Inv (w : Worker) : Type 0 where
  pub process_launched : launched_in w.trace ≡ w.process
  pub stdin_piped : has_pipe stdin w.trace ≡ w.stdin_set
  pub stdout_piped : has_pipe stdout w.trace ≡ w.stdout_set
  pub wait_awaited : is_awaited w.trace ≡ w.wait_closed
  pub orderly : IsOrderly w.trace

-- A call of the worker, with what the system answers.
pub data Call : Type 0 where
  start_call : Option Error → Option Error → Result Error ℕ → Call
  wait_call : Result Error (Unit {0}) → Call
  stop_call kill_call : Call
  read_pipe_call write_pipe_call : Option Error → Call
  duplex_pipe_call : Option Error → Option Error → Call

unfoldable pub step : Worker → Call → Worker
unfolding start wait stop kill read_pipe write_pipe duplex_pipe
step w (start_call c p l) = (start c p l w).1
step w (wait_call x) = (wait x w).1
step w stop_call = (stop w).1
step w kill_call = (kill w).1
step w (read_pipe_call p) = (read_pipe p w).1
step w (write_pipe_call p) = (write_pipe p w).1
step w (duplex_pipe_call i o) = (duplex_pipe i o w).1

unfoldable pub run_calls : Worker → List Call → Worker
run_calls w [] = w
run_calls w (c ∷ cs) = run_calls (step w c) cs

step-Inv : (w : Worker) (c : Call) → Inv w → Inv (step w c)
unfolding step start wait halt read_pipe write_pipe duplex_pipe
step-Inv w (start_call c p l) v = ground arith
step-Inv w (wait_call x) v = ground arith
step-Inv w stop_call v = ground arith
step-Inv w kill_call v = ground arith
step-Inv w (read_pipe_call p) v = ground arith
step-Inv w (write_pipe_call p) v = ground arith
step-Inv w (duplex_pipe_call i o) v = ground arith

run_from-Inv : (w : Worker) (cs : List Call) → Inv w → Inv (run_calls w cs)
unfolding run_calls
run_from-Inv w [] v = v
run_from-Inv w (c ∷ cs) v = run_from-Inv (step w c) cs (step-Inv w c v)

-- Whatever calls a new worker gets, and whatever the system answers, its process is launched once
-- at most, its streams are piped before that and once at most, signals are sent only to a process
-- that was launched, and only one call gets to wait for it.
pub run_calls-Inv : (cs : List Call) → Inv (run_calls new cs)
run_calls-Inv cs = run_from-Inv new cs (record {
  process_launched = refl;
  stdin_piped = refl;
  stdout_piped = refl;
  wait_awaited = refl;
  orderly = tt;
})

-- A worker whose process could not be launched cannot be started a second time: the pipe for its
-- stderr is taken.
pub start-again :
    (w : Worker) (e : Error) (l : Result Error ℕ)
    → w.process ≡ none
    → w.stderr_set ≡ false
    → start none none l (start none none (err e) w).1 ≡ (
      err (wrap "failed to get stderr pipe" (message "exec: Stderr already set")),
      record w { stderr_set = true },
    )
unfolding start
start-again w e l p q = ground arith
