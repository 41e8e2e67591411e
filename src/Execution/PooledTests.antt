-- ===== src/Execution/PooledTests.antt =====
-- Runs of the pooled dispatcher.
use shimmy_wasm_go.Base.{ℕ, suc, ◌≡◌, ◌≢◌, ◌⊎◌, none, some, refl, false, [], ◌∷◌, arith, ◌+◌}
use shimmy_wasm_go.Exec.{Error, wrap, ok, err, panics}
use shimmy_wasm_go.Json.{Map, string, field, end}
use shimmy_wasm_go.Execution.Supervisor.{Ref, noop}
use shimmy_wasm_go.Execution.Dispatcher.Pooled.{Pool, Leftover, Dispatcher, acquired, released}
use shimmy_wasm_go.Execution.Dispatcher.Pooled
use shimmy_wasm_go.Execution.Dispatcher.Pooled.Disposal.{Disposed, send-Disposed}
use shimmy_wasm_go.Execution.Dispatcher.Pooled.Concurrent.{
  State, fresh, acquires, ends, disposes, Reach, here, later, acquisitions, disposals, holders,
  leftovers, Reach-IsBalanced,
}

abbrev data_in : Map
data_in = some (field "response" (string "x") end)

-- a pool whose resources are numbered as they are acquired, and whose supervisors answer
abbrev pool : Pool ℕ
pool = record {
  acquire = λ n. (ok n, suc n);
  destroy = λ r n. n;
  release = λ r n. n;
  close = λ n. n;
  send = λ r method m n. (ok (record { data_out = m; release = noop; error = none }), n);
  run_release = λ r n. (ok tt, n);
}

abbrev pooled : Dispatcher ℕ
pooled = record { pool = 5; uses = []; pending = [] }

-- by the time that the disposal runs, another message has got a resource
abbrev overtaken : Dispatcher ℕ
overtaken = record { pool = 7; uses = acquired 6 ∷ acquired 5 ∷ []; pending = [] }

pooled_returns : (Pooled.send pool "eval" data_in pooled).0 ≢ panics
unfolding Pooled.send
pooled_returns e = absurd (ground arith)

send-Disposed_example :
    ((e : Error) × ((Pooled.send pool "eval" data_in pooled).0
        ≡ err (wrap "error acquiring supervisor" e))
      × ((Pooled.send pool "eval" data_in pooled).1.uses ≡ [])
      × ((Pooled.send pool "eval" data_in pooled).1.pending ≡ []))
    ⊎ ((r : Ref) × (x : Leftover) × ((Pooled.send pool "eval" data_in pooled).1.uses
          ≡ acquired r ∷ [])
        × ((Pooled.send pool "eval" data_in pooled).1.pending ≡ x ∷ [])
        × Disposed pool r
            (Pooled.send pool "eval" data_in pooled).0
            overtaken.uses
            (Pooled.dispose pool x overtaken))
send-Disposed_example = send-Disposed pool "eval" data_in pooled overtaken pooled_returns

-- two messages run; the first is answered, and its disposal runs while the second still runs
abbrev answered : Leftover
answered = record {
  resource = 5;
  failed = false;
  result = some (record { data_out = data_in; release = noop; error = none });
}

abbrev both : State ℕ
both = record {
  dispatcher = record pooled { pool = 7; uses = acquired 6 ∷ acquired 5 ∷ [] };
  held = 6 ∷ 5 ∷ [];
}

abbrev one_left : State ℕ
one_left = record {
  dispatcher = record both.dispatcher { uses = released 5 ∷ acquired 6 ∷ acquired 5 ∷ [] };
  held = 6 ∷ [];
}

both_reached : Reach pool (fresh 5) both
both_reached = later _ _ (later _ _ here (acquires (fresh 5) 5 6 refl)) (acquires _ 6 7 refl)

one_left_reached : Reach pool (fresh 5) one_left
unfolding Pooled.send_to_supervisor Pooled.dispose
one_left_reached =
    later _ _ (later _ _ both_reached (ends both "eval" data_in 5 (6 ∷ []) [] refl)) (
      disposes
        (record { dispatcher = record both.dispatcher { pending = answered ∷ [] }; held = 6 ∷ [] })
        answered [] [] refl (λ e. absurd (ground arith)))

Reach-IsBalanced_example :
    acquisitions 5 one_left.dispatcher.uses
    ≡ disposals 5 one_left.dispatcher.uses
      + (holders 5 one_left.held + leftovers 5 one_left.dispatcher.pending)
Reach-IsBalanced_example = Reach-IsBalanced pool 5 one_left 5 one_left_reached
