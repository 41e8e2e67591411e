-- ===== src/Execution/Tests.antt =====
-- Runs of the pipe, the supervisor, the dispatchers, the worker and the adapters.
use shimmy_wasm_go.Execution.Pipe.{find_length, drain_header, Pipe, read_message, header, read}
use shimmy_wasm_go.Execution.Pipe.Fuel.{ran_out, loops-settled}
use shimmy_wasm_go.Execution.Pipe.Refine.{
  Inbox, encode, Represents, answer, read_each, receive_each, read_each_refines,
}
use shimmy_wasm_go.Base.{
  ℕ, zero, suc, ◌+◌, ◌^◌, ◌*◌, ◌<◌, ◌≤◌, min, String, ◌≡◌, ◌≢◌, ◌↔◌, refl, ◌⊎◌, inl, inr, Bool,
  true, false, Option, none, some, List, [], ◌∷◌, ◌++◌, Bytes, codes, length, arith, All, map,
}
use shimmy_wasm_go.Exec.{message, ok, err, panics}
use shimmy_wasm_go.Json.{string, end, field, Map}
use shimmy_wasm_go.Execution.Supervisor.{
  Ref, Adapters, Event, created, started, start_failed, sent, stopping, cancelled, Supervisor,
  Release, noop, SendResult, new, acquire_worker, boot_worker,
}
use shimmy_wasm_go.Execution.Supervisor
use shimmy_wasm_go.Execution.Dispatcher.Dedicated.{send}
use shimmy_wasm_go.Execution.Dispatcher.Dedicated.Lifecycle.{send-lifecycle}
use shimmy_wasm_go.Execution.Pipe.Frame.{IsStray, lines_text, read_message-write}
use shimmy_wasm_go.Execution.Pipe.Stream.{frames, size, reads, reads-frames}
use shimmy_wasm_go.Execution.Worker.{Worker, StartConfig}
use shimmy_wasm_go.Execution.Worker
use shimmy_wasm_go.Execution.Worker.Order
use shimmy_wasm_go.Execution.Worker.Order.{run_calls, run_calls-Inv}

-- Adapters that answer each message with itself; the state counts the adapters that were made.
abbrev echoing : Adapters ℕ
echoing = record {
  create = λ n. (ok n, suc n);
  start = λ r n. (ok tt, n);
  send = λ r method m n. (ok m, n);
  stop = λ r n. (ok tt, n);
  wait = λ r n. (ok tt, n);
  cancel = λ r n. n;
}

abbrev refusing : Adapters ℕ
refusing = record echoing { send = λ r method m n. (err (message "no"), n) }

abbrev unstarted : Adapters ℕ
unstarted = record echoing { start = λ r n. (err (message "no"), n) }

abbrev data_in : Map
data_in = some (field "response" (string "x") end)

abbrev idle : Supervisor ℕ
idle = new false 7

abbrev after_message : Supervisor ℕ
after_message = record idle { env = 8; trace = stopping 7 ∷ sent 7 ∷ started 7 ∷ created 7 ∷ [] }

abbrev message_result : SendResult
message_result = record { data_out = data_in; release = Release.waits 7; error = none }

transient_run : Supervisor.send echoing "eval" data_in idle ≡ (ok message_result, after_message)
unfolding Supervisor.send
transient_run = refl

abbrev after_answer : Supervisor ℕ
after_answer = record idle {
  env = 8;
  trace = cancelled 7 ∷ stopping 7 ∷ sent 7 ∷ started 7 ∷ created 7 ∷ [];
}

dedicated_run : send echoing "eval" data_in idle ≡ (ok data_in, after_answer)
unfolding send
dedicated_run = refl

send-lifecycle_example :
    (r : Ref) × (after_answer.trace
      ≡ cancelled r ∷ stopping r ∷ sent r ∷ started r ∷ created r ∷ idle.trace)
    × (after_answer.worker_ref ≡ none)
send-lifecycle_example =
    send-lifecycle echoing "eval" data_in idle data_in after_answer refl refl dedicated_run

abbrev busy : Supervisor ℕ
busy = record idle { worker_ref = some 3 }

abbrev printed : Bytes
printed = codes "warming up"

stray : IsStray printed
unfolding shimmy_wasm_go.Base.has_prefix shimmy_wasm_go.Base.trim_right
stray = (ground arith, refl)

read_message-write_example :
    read_message
      (lines_text (printed ∷ []) ++ (header (length (codes "{}")) ++ (codes "{}" ++ codes "later")))
    ≡ (ok (codes "{}"), codes "later")
read_message-write_example =
    read_message-write (printed ∷ []) (codes "{}") (codes "later") (ground arith) (stray, tt)

abbrev half_read : Pipe
half_read = record { buf = codes "abc"; input = [] }

half_reads : read 2 half_read ≡ (ok (codes "ab"), record { buf = codes "c"; input = [] })
unfolding read
half_reads = refl

abbrev worker_calls : List Order.Call
worker_calls =
    Order.duplex_pipe_call none none
    ∷ Order.start_call none none (ok 42)
    ∷ Order.start_call none none (ok 43)
    ∷ Order.stop_call
    ∷ Order.wait_call (ok tt)
    ∷ []

run_calls-Inv_example : Order.Inv (run_calls Worker.new worker_calls)
run_calls-Inv_example = run_calls-Inv worker_calls

stops_echoing : (r : Ref) → (echoing.stop r busy.env).0 ≢ panics
stops_echoing r e = absurd (ground arith)

abbrev two_messages : List Bytes
two_messages = codes "{}" ∷ codes "[1]" ∷ []

reads-frames_example :
    reads 512 (size two_messages) (record { buf = []; input = frames two_messages })
    ≡ (map (λ p. ok p) two_messages, record { buf = []; input = [] })
reads-frames_example = reads-frames 512 two_messages (ground arith)

-- Two messages with a line that is no header before each of them and behind them.
abbrev noisy : Pipe
noisy = record {
  buf = [];
  input = encode ((printed ∷ [], codes "{}") ∷ (printed ∷ [], codes "[1]") ∷ []) (printed ∷ []);
}

abbrev both : Inbox
both = record { current = []; waiting = codes "{}" ∷ codes "[1]" ∷ [] }

noisy-Represents : Represents noisy both
noisy-Represents = (
  (printed ∷ [], codes "{}") ∷ (printed ∷ [], codes "[1]") ∷ [],
  printed ∷ [],
  ((ground arith, (stray, tt)), ((ground arith, (stray, tt)), tt)),
  (stray, tt),
  refl,
  refl,
)

read_each_refines_example :
    read_each (1 ∷ 5 ∷ 2 ∷ 2 ∷ 2 ∷ []) noisy
    ≡ map answer (receive_each (1 ∷ 5 ∷ 2 ∷ 2 ∷ 2 ∷ []) both)
read_each_refines_example = read_each_refines (1 ∷ 5 ∷ 2 ∷ 2 ∷ 2 ∷ []) noisy both noisy-Represents

loops-settled_example :
    (find_length 99 (header 7) ≡ find_length (suc (length (header 7))) (header 7))
    × (ran_out (find_length 99 (header 7)).0 ≡ false)
    × (drain_header 99 (header 7) ≡ drain_header (suc (length (header 7))) (header 7))
    × (ran_out (drain_header 99 (header 7)).0 ≡ false)
    × (ran_out (read 5 (record { buf = []; input = header 7 })).0 ≡ false)
unfolding shimmy_wasm_go.Base.Decimal.decimal
loops-settled_example =
    loops-settled (header 7) 99 5 (record { buf = []; input = header 7 }) (ground arith)
