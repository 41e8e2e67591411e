-- ===== src/Execution/SupervisorTests.antt =====
-- A run of the supervisor in which calls overlap.
use shimmy_wasm_go.Base.{true, ℕ, suc, refl, some, [], ◌∷◌}
use shimmy_wasm_go.Exec.{ok}
use shimmy_wasm_go.Json.{Map, string, field, end}
use shimmy_wasm_go.Execution.Supervisor.{
  Adapters, Supervisor, created, started, sent, stopping, new, acquire_worker, terminate_worker,
  release_worker, shutdown,
}
use shimmy_wasm_go.Execution.Supervisor.Concurrent.{
  State, idle, acquires, sends, releases, shuts, Reach, here, later, Serial, Reach-Serial,
}

-- Adapters that answer each message with itself; the state counts the adapters that were made.
abbrev echoing : Adapters ℕ
echoing = record {
  create = λ n. (ok n, suc n);
  start = λ r n. (ok tt, n);
  send = λ r method m n. (ok m, n);
  stop = λ r n. (ok tt, n);
  wait = λ r n. (ok tt, n);
  cancel = λ r n. n;
}

abbrev data_in : Map
data_in = some (field "response" (string "x") end)

abbrev before : Supervisor ℕ
before = new true 7

-- `Shutdown` comes between the worker that `Send` gets and its message
abbrev overlapped : State ℕ
overlapped = record {
  supervisor = record before { env = 8; trace = sent 7 ∷ stopping 7 ∷ started 7 ∷ created 7 ∷ [] };
  phase = idle;
}

overlapped_reached : Reach echoing (record { supervisor = before; phase = idle }) overlapped
unfolding acquire_worker terminate_worker release_worker shutdown
overlapped_reached =
    later _ _
      (later _ _ (later _ _ (later _ _ here (acquires before _ 7 refl)) (shuts _))
        (sends _ 7 "eval" data_in))
      (releases _ 7)

Reach-Serial_example : Serial overlapped
Reach-Serial_example = Reach-Serial echoing true 7 overlapped overlapped_reached
