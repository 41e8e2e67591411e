-- ===== src/Execution/Dispatcher/Pooled.antt =====
-- internal/execution/dispatcher/dispatcher_pooled.go. The pool is a third-party package.
pub mod Disposal
pub mod Concurrent
use shimmy_wasm_go.Base.{
  ℕ, zero, suc, ◌%◌, ◌^◌, ◌-◌, ltb, String, ◌≡◌, Bool, true, false, Option, none, some, List, [],
  ◌∷◌, if◌then◌else◌,
}
use shimmy_wasm_go.Exec.{Error, wrap, Result, ok, err, panics, Exec}
use shimmy_wasm_go.Json.{Map, ℤ, pos, negsuc}
use shimmy_wasm_go.Execution.Config.{SupervisorConfig, PooledConfig}
use shimmy_wasm_go.Execution.Supervisor.{Ref, Release, SendResult}

-- A pool with its supervisors: `Acquire`, `Destroy` and `Release` of a resource, `Close`, and the
-- supervisor's `Send` and the releases it returns.
pub record Pool (P : Type 0) : Type 0 where
  pub acquire : Exec Error P Ref
  pub destroy : Ref → P → P
  pub release : Ref → P → P
  pub close : P → P
  pub send : Ref → String → Map → Exec Error P SendResult
  pub run_release : Release → Exec Error P (Unit {0})

-- What the dispatcher has done to the pool, newest first.
pub data Use : Type 0 where
  acquired destroyed released : Ref → Use

-- What a goroutine that runs `dispose` has taken along: the resource, whether there is an error, and
-- what the supervisor's `Send` returned.
pub record Leftover : Type 0 where
  pub resource : Ref
  pub failed : Bool
  pub result : Option SendResult

-- `PooledDispatcher`, with the disposals that have not run yet
pub record Dispatcher (P : Type 0) : Type 0 where
  pub pool : P
  pub uses : List Use
  pub pending : List Leftover

module _ {P : Type 0} (p : Pool P) where
  abbrev Act : Type 0 → Type 0
  Act A = Exec Error (Dispatcher P) A

  abbrev destroy : Ref → Dispatcher P → Dispatcher P
  destroy r d = record d { pool = p.destroy r d.pool; uses = destroyed r ∷ d.uses }

  -- `destroyOrRelease`, by whether there is an error
  unfoldable pub destroy_or_release : Bool → Ref → Dispatcher P → Dispatcher P
  destroy_or_release true r d = destroy r d
  destroy_or_release false r d = record d { pool = p.release r d.pool; uses = released r ∷ d.uses }

  abbrev after_release :
      Bool
      → Ref
      → Dispatcher P
      → Result Error (Unit {0}) × P
      → Result Error (Unit {0}) × Dispatcher P
  after_release failed r d (ok _, q) = (ok tt, destroy_or_release failed r (record d { pool = q }))
  after_release failed r d (err e, q) = (ok tt, destroy r (record d { pool = q }))
  after_release failed r d (panics, q) = (panics, record d { pool = q })

  -- `dispose`; a result has a release
  unfoldable pub dispose : Leftover → Act (Unit {0})
  unfolding destroy_or_release
  dispose x d = elim x.result [
    | none ↦ (ok tt, destroy_or_release x.failed x.resource d)
    | some res ↦ after_release x.failed x.resource d (p.run_release res.release d.pool)
  ]

  abbrev result_of : SendResult → Result Error Map
  result_of res = elim res.error [ some e ↦ err e | none ↦ ok res.data_out ]

  abbrev pub has_error : SendResult → Bool
  has_error res = elim res.error [ some e ↦ true | none ↦ false ]

  -- `go dispose()`
  abbrev leaving : Ref → Bool → Option SendResult → Dispatcher P → Dispatcher P
  leaving r failed result d = record d {
    pending = record { resource = r; failed = failed; result = result } ∷ d.pending;
  }

  -- A panic leaves neither a result nor an error behind for the disposal.
  abbrev sending :
      Ref → Dispatcher P → Result Error SendResult × P → Result Error Map × Dispatcher P
  sending r d (ok res, q) =
      (result_of res, leaving r (has_error res) (some res) (record d { pool = q }))
  sending r d (err e, q) = (err e, leaving r true none (record d { pool = q }))
  sending r d (panics, q) = (panics, leaving r false none (record d { pool = q }))

  -- `sendToSupervisor`, which leaves a disposal to run
  unfoldable pub send_to_supervisor : Ref → String → Map → Act Map
  send_to_supervisor r method m d = sending r d (p.send r method m d.pool)

  abbrev sent : Result Error Map × Dispatcher P → Result Error Map × Dispatcher P
  sent (ok m, d) = (ok m, d)
  sent (err e, d) = (err (wrap "error sending data" e), d)
  sent (panics, d) = (panics, d)

  abbrev acquiring :
      String → Map → Dispatcher P → Result Error Ref × P → Result Error Map × Dispatcher P
  acquiring method m d (ok r, q) =
      sent (send_to_supervisor r method m (record d { pool = q; uses = acquired r ∷ d.uses }))
  acquiring method m d (err e, q) =
      (err (wrap "error acquiring supervisor" e), record d { pool = q })
  acquiring method m d (panics, q) = (panics, record d { pool = q })

  -- `Send`
  unfoldable pub send : String → Map → Act Map
  unfolding send_to_supervisor
  send method m d = acquiring method m d (p.acquire d.pool)

  -- `Start` and `Shutdown`
  unfoldable pub start : Act (Unit {0})
  start d = (ok tt, d)

  unfoldable pub shut_down : Act (Unit {0})
  shut_down d = (ok tt, record d { pool = p.close d.pool })

-- `int32(n)` of a number that is not negative
unfoldable pub int32 : ℕ → ℤ
int32 n = let r = n % 2 ^ 32 in if ltb r (2 ^ 31) then pos r else negsuc (2 ^ 32 - suc r)

-- the pool's `MaxSize`, for the number of CPUs and the configured number of workers
unfoldable pub max_size : ℕ → ℤ → ℤ
unfolding int32
max_size cpus (pos zero) = int32 cpus
max_size cpus (pos (suc n)) = int32 (suc n)
max_size cpus (negsuc n) = int32 cpus

-- `createPool`, for the number of CPUs and what the pool's package makes of a size and of the
-- configuration that the constructor gives to each supervisor
unfoldable pub create_pool :
    {P : Type 0} → (ℤ → SupervisorConfig → Result Error P) → ℕ → PooledConfig → Result Error P
unfolding max_size
create_pool new_pool cpus config = new_pool (max_size cpus config.max_workers) config.supervisor

-- `NewPooledDispatcher`
unfoldable pub new_pooled_dispatcher :
    {P : Type 0}
    → (ℤ → SupervisorConfig → Result Error P)
    → ℕ
    → PooledConfig
    → Result Error (Dispatcher P)
unfolding create_pool
new_pooled_dispatcher new_pool cpus config = elim (create_pool new_pool cpus config) [
  | ok q ↦ ok (record { pool = q; uses = []; pending = [] })
  | err e ↦ err e
  | panics ↦ panics
]
