-- ===== src/Execution/Wasm/Dispatcher.antt =====
-- internal/execution/wasm/dispatcher.go: the instances that stand ready in a channel. An instance is
-- named by its number; what the system and the runtime answer are arguments.
pub mod Count
pub mod Exclusive
pub mod Progress
pub mod Startup
pub mod Trace
pub mod Twice
use shimmy_wasm_go.Base.{
  ℕ, zero, suc, String, ◌≡◌, ◌==◌, Bool, true, false, Option, none, some, List, [], ◌∷◌, ◌++◌,
  if◌then◌else◌, str_eq,
}
use shimmy_wasm_go.Exec.{Error, message, wrap, Result, ok, err, panics, Exec}
use shimmy_wasm_go.Json.{Map, ℤ, pos, negsuc}

-- What is done to instances and to the runtime, newest first.
pub data Event : Type 0 where
  started shut : ℕ → Event
  runtime_opened runtime_closed : Event

-- `Dispatcher`: the channel, the instances that messages have, those that a panic took along,
-- whether `rt` is set, and the number of the next instance. A channel that is not made yet is an empty one: neither gives an instance.
pub record WasmDispatcher : Type 0 where
  pub pool : List ℕ
  pub busy : List ℕ
  pub lost : List ℕ
  pub has_runtime : Bool
  pub next : ℕ
  pub trace : List Event

-- `NewDispatcher`
abbrev pub new : WasmDispatcher
new = record { pool = []; busy = []; lost = []; has_runtime = false; next = 0; trace = [] }

-- The answers to `Start`: of the file system, the runtime, and each instance's start.
pub record Answers : Type 0 where
  pub module_path : String
  pub max_instances : ℤ
  pub cpus : ℕ
  pub read_file : Option Error
  pub wasi : Option Error
  pub compile : Option Error
  pub starts : ℕ → Option Error

abbrev Act : Type 0 → Type 0
Act A = Exec Error WasmDispatcher A

abbrev log : Event → WasmDispatcher → WasmDispatcher
log e d = record d { trace = e ∷ d.trace }

-- the number of instances
unfoldable pub instances : Answers → ℕ
instances sys = elim sys.max_instances [
  | negsuc n ↦ sys.cpus
  | pos n ↦ elim n [ zero ↦ sys.cpus | suc k ↦ suc k ]
]

pub shut_all : List ℕ → List Event → List Event
shut_all [] t = t
shut_all (sv ∷ svs) t = shut_all svs (shut sv ∷ t)

-- `drainPool`; an error of a shutdown is logged
unfoldable pub drain_pool : WasmDispatcher → WasmDispatcher
unfolding shut_all
drain_pool d = record d { pool = []; trace = shut_all d.pool d.trace }

-- `rt.Close` behind an error of `Start`, which leaves `rt` set
abbrev aborted : WasmDispatcher → WasmDispatcher
aborted d = log runtime_closed d

-- The loop of `Start`, for the instances that are still to be started, from the index `i` on. Each
-- gets a number of its own, also in a second start.
unfoldable pub fill : (ℕ → Option Error) → ℕ → ℕ → Act (Unit {0})
unfolding drain_pool
fill starts zero i d = (ok tt, d)
fill starts (suc left) i d = elim (starts i) [
  | some e ↦ (err (wrap "wasm: start instance" e), aborted (drain_pool d))
  | none ↦ fill starts left (suc i) (record d {
    pool = d.pool ++ d.next ∷ [];
    next = suc d.next;
    trace = started d.next ∷ d.trace;
  })
]

-- from the runtime on
abbrev opened : Answers → Act (Unit {0})
opened sys d = elim sys.wasi [
  | some e ↦ (err (wrap "wasm: instantiate wasi" e), aborted d)
  | none ↦ elim sys.compile [
    | some e ↦ (err (wrap "wasm: compile module" e), aborted d)
    | none ↦ fill sys.starts (instances sys) zero (record d { pool = [] })
  ]
]

-- `Start`
unfoldable pub start : Answers → Act (Unit {0})
unfolding fill instances
start sys d =
    if str_eq sys.module_path ""
    then (err (message "wasm: ModulePath must be set (FUNCTION_COMMAND)"), d)
    else elim sys.read_file [
      | some e ↦ (err (wrap "wasm: read module file" e), d)
      | none ↦ opened sys (log runtime_opened (record d { has_runtime = true }))
    ]

-- `sv = <-d.pool`, where there is one
unfoldable pub acquire : WasmDispatcher → Option (ℕ × WasmDispatcher)
acquire d = elim d.pool [
  | [] ↦ none
  | sv ∷ rest ↦ some (sv, record d { pool = rest; busy = sv ∷ d.busy })
]

abbrev pub without : ℕ → List ℕ → List ℕ
without sv [] = []
without sv (x ∷ xs) = if x == sv then xs else x ∷ without sv xs

-- `d.pool <- sv`
unfoldable pub give_back : ℕ → WasmDispatcher → WasmDispatcher
give_back sv d = record d { pool = d.pool ++ sv ∷ []; busy = without sv d.busy }

-- a panic of the message, which does not give the instance back
unfoldable pub lose : ℕ → WasmDispatcher → WasmDispatcher
lose sv d = record d { lost = sv ∷ d.lost; busy = without sv d.busy }

abbrev answered : ℕ → Result Error Map → Act Map
answered sv (ok m) d = (ok m, give_back sv d)
answered sv (err e) d = (err (wrap "wasm: send" e), give_back sv d)
answered sv panics d = (panics, lose sv d)

-- `Send`, for the answer of each instance and the error of a context that ends in the wait
unfoldable pub send : Error → (ℕ → Result Error Map) → Act Map
unfolding acquire give_back lose
send ctx answer d = elim (acquire d) [
  | none ↦ (err (wrap "wasm: acquire instance" ctx), d)
  | some (sv, b) ↦ answered sv (answer sv) b
]

-- `Shutdown`, for the error of `rt.Close`
unfoldable pub shut_down : Option Error → Act (Unit {0})
unfolding drain_pool
shut_down close d =
    let b = drain_pool d in
    if b.has_runtime
    then elim close [
      | some e ↦ (err (wrap "wasm: close runtime" e), log runtime_closed b)
      | none ↦ (ok tt, log runtime_closed (record b { has_runtime = false }))
    ]
    else (ok tt, b)
