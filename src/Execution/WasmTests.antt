-- ===== src/Execution/WasmTests.antt =====
-- Runs of the WebAssembly adapter, supervisor and dispatcher.
use shimmy_wasm_go.Base.{
  ℕ, zero, suc, ◌+◌, ◌≤◌, ◌≡◌, ◌≢◌, refl, sym, ap, true, Option, none, some, List, [], ◌∷◌, Bytes,
  codes, length, arith, ◌==◌, if◌then◌else◌,
}
use mathlib.Core.Path.{subst}
use shimmy_wasm_go.Exec.{Error, message, wrap, ok, err, panics, Exec}
use shimmy_wasm_go.Json.{pos, end}
use shimmy_wasm_go.Execution.Wasm.Adapter.{Guest, Spelling, send}
use shimmy_wasm_go.Execution.Wasm.Adapter.Reply.{le32, send-Replies}
use shimmy_wasm_go.Execution.Wasm.Adapter.Growth.{Laws, Answers}
use shimmy_wasm_go.Execution.Wasm.Supervisor
use shimmy_wasm_go.Execution.Wasm.Supervisor.{WasmSupervisor}
use shimmy_wasm_go.Execution.Wasm.Supervisor.Snapshot
use shimmy_wasm_go.Execution.Wasm.Supervisor.Snapshot.{run, run-Ready}
use shimmy_wasm_go.Execution.Wasm.Dispatcher
use shimmy_wasm_go.Execution.Wasm.Dispatcher.{WasmDispatcher, instances, acquire}
use shimmy_wasm_go.Execution.Wasm.Dispatcher.Count.{count}
use shimmy_wasm_go.Execution.Wasm.Dispatcher.Exclusive.{begins, here, then_step, Reach-exclusive}
use shimmy_wasm_go.Execution.Wasm.Dispatcher.Progress.{Ends, Reach-recovers}
use shimmy_wasm_go.Execution.Wasm.Dispatcher.Startup.{AllReady, Filled, from, start-fills}

-- A guest that always replies with the text `{}` at the address 64.
abbrev replying : Guest ℕ
replying = record {
  has_memory = true;
  size = λ g. 65536;
  read = λ g p n. if p == 64 then some (le32 2) else some (codes "{}");
  write = λ g p b. some g;
  alloc = some (λ n g. (ok (16 ∷ []), g));
  evaluate = some (λ p n g. (ok (64 ∷ []), suc g));
  close = λ g. (ok tt, g);
}

abbrev spelling : Spelling
spelling = record { spell = λ v. codes "request"; parse = λ t. ok (some end) }

send-Replies_example : send replying spelling "eval" none 0 ≡ (ok (some end), 1)
send-Replies_example =
    send-Replies replying spelling "eval" none (some end) 0 0 0 1 (λ n g. (ok (16 ∷ []), g))
      (λ p n g. (ok (64 ∷ []), suc g)) 16 64 (codes "{}") refl refl refl refl refl refl
      (omega arith) (ground arith) (refl, refl) refl

-- A guest whose memory is one byte, which a message changes.
abbrev byte_read : ℕ → ℕ → ℕ → Option Bytes
byte_read g zero zero = some []
byte_read g zero (suc zero) = some (g ∷ [])
byte_read g zero (suc (suc n)) = none
byte_read g (suc p) n = none

abbrev byte_write : ℕ → ℕ → Bytes → Option ℕ
byte_write g zero [] = some g
byte_write g zero (b ∷ []) = some b
byte_write g zero (b ∷ c ∷ bs) = none
byte_write g (suc p) b = none

abbrev byte_guest : Guest ℕ
byte_guest = record {
  has_memory = true;
  size = λ g. 1;
  read = byte_read;
  write = byte_write;
  alloc = some (λ n g. (ok (0 ∷ []), g));
  evaluate = some (λ p n g. (ok (0 ∷ []), suc g));
  close = λ g. (ok tt, g);
}

abbrev byte_spelling : Spelling
byte_spelling = record { spell = λ v. 7 ∷ []; parse = λ t. ok none }

abbrev from_some : Option (ℕ → Exec Error ℕ (List ℕ)) → ℕ → Exec Error ℕ (List ℕ)
from_some none n g = (panics, g)
from_some (some f) n g = f n g

abbrev from_some2 : Option (ℕ → ℕ → Exec Error ℕ (List ℕ)) → ℕ → ℕ → Exec Error ℕ (List ℕ)
from_some2 none p n g = (panics, g)
from_some2 (some f) p n g = f p n g

byte_read-write :
    (g h : ℕ) (b : Bytes) → byte_write g zero b ≡ some h → byte_read h zero (length b) ≡ some b
byte_read-write g h [] e = ground arith
byte_read-write g h (b ∷ []) e = ground arith
byte_read-write g h (b ∷ c ∷ bs) e = absurd (ground arith)

byte_read-length : (g n : ℕ) (b : Bytes) → byte_read g zero n ≡ some b → length b ≡ n
byte_read-length g zero b e = ground arith
byte_read-length g (suc zero) b e = ground arith
byte_read-length g (suc (suc n)) b e = absurd (ground arith)

byte_write_fits : (g : ℕ) (b : Bytes) → length b ≤ 1 → byte_write g zero b ≢ none
byte_write_fits g [] l e = absurd (ground arith)
byte_write_fits g (b ∷ []) l e = absurd (ground arith)
byte_write_fits g (b ∷ c ∷ bs) l e = absurd (ground arith)

byte_alloc :
    (f : ℕ → Exec Error ℕ (List ℕ)) (n g : ℕ)
    → byte_guest.alloc ≡ some f
    → Answers (f n g).0 × (1 ≤ 1)
byte_alloc f n g e =
    let same : f n g ≡ (ok (0 ∷ []), g) = sym (ap (λ o. (from_some o) n g) e) in
    (subst (λ o. Answers o.0) (sym same) tt, omega arith)

byte_evaluate :
    (f : ℕ → ℕ → Exec Error ℕ (List ℕ)) (p n g : ℕ)
    → byte_guest.evaluate ≡ some f
    → Answers (f p n g).0 × (1 ≤ 1)
byte_evaluate f p n g e =
    let same : f p n g ≡ (ok (0 ∷ []), suc g) = sym (ap (λ o. (from_some2 o) p n g) e) in
    (subst (λ o. Answers o.0) (sym same) tt, omega arith)

byte-Laws : Laws byte_guest byte_spelling
byte-Laws = record {
  read-write = byte_read-write;
  read-length = byte_read-length;
  size-write = λ g h p b e. refl;
  write_fits = byte_write_fits;
  alloc_grows = byte_alloc;
  evaluate_grows = byte_evaluate;
  parse_returns = λ t e. absurd (ground arith);
}

abbrev byte_ready : WasmSupervisor ℕ
byte_ready = record { instance_of = some 5; snapshot = some (5 ∷ []) }

byte_starts : Supervisor.start byte_guest byte_spelling (ok 5) Supervisor.new ≡ (ok tt, byte_ready)
unfolding Supervisor.start
byte_starts = refl

run-Ready_example :
    Snapshot.Ready byte_guest
      (5 ∷ [])
      (run byte_guest byte_spelling byte_ready (("eval", none) ∷ ("preview", none) ∷ []))
run-Ready_example =
    run-Ready byte_guest byte_spelling byte-Laws 5 (5 ∷ []) byte_ready
      (("eval", none) ∷ ("preview", none) ∷ []) byte_starts refl

abbrev pub wasm_answers : Dispatcher.Answers
wasm_answers = record {
  module_path = "eval.wasm";
  max_instances = pos 2;
  cpus = 8;
  read_file = none;
  wasi = none;
  compile = none;
  starts = λ i. none;
}

abbrev pub two_ready : WasmDispatcher
two_ready = record {
  pool = 0 ∷ 1 ∷ [];
  busy = [];
  lost = [];
  has_runtime = true;
  next = 2;
  trace = Dispatcher.started 1 ∷ Dispatcher.started 0 ∷ Dispatcher.runtime_opened ∷ [];
}

pub wasm_starts : Dispatcher.start wasm_answers Dispatcher.new ≡ (ok tt, two_ready)
unfolding Dispatcher.start
wasm_starts = refl

start-fills_example :
    (two_ready.pool ≡ from zero (instances wasm_answers))
    × Filled wasm_answers.max_instances wasm_answers.cpus two_ready.pool
    × (two_ready.busy ≡ [])
    × (two_ready.lost ≡ [])
    × (two_ready.has_runtime ≡ true)
    × AllReady two_ready
start-fills_example = start-fills wasm_answers two_ready wasm_starts

abbrev bad_answers : Dispatcher.Answers
bad_answers = record wasm_answers {
  starts = λ i. elim i [ zero ↦ none | suc n ↦ some (message "no") ];
}

abbrev aborted_start : WasmDispatcher
aborted_start = record Dispatcher.new {
  has_runtime = true;
  next = 1;
  trace =
      Dispatcher.runtime_closed
      ∷ Dispatcher.shut 0
      ∷ Dispatcher.started 0
      ∷ Dispatcher.runtime_opened
      ∷ [];
}

wasm_aborts :
    Dispatcher.start bad_answers Dispatcher.new
    ≡ (err (wrap "wasm: start instance" (message "no")), aborted_start)
unfolding Dispatcher.start
wasm_aborts = refl

abbrev one_busy : WasmDispatcher
one_busy = record two_ready { pool = 1 ∷ []; busy = 0 ∷ [] }

takes_first : Dispatcher.acquire two_ready ≡ some (0, one_busy)
unfolding Dispatcher.acquire
takes_first = refl

Reach-exclusive_example :
    count 0 one_busy.pool + (count 0 one_busy.busy + count 0 one_busy.lost) ≤ 1
Reach-exclusive_example =
    Reach-exclusive two_ready one_busy 0 refl refl (ground arith)
      (then_step two_ready one_busy here (begins two_ready one_busy 0 takes_first))

Reach-recovers_example :
    (c : WasmDispatcher) × Ends one_busy c
    × (c.busy ≡ [])
    × (count 0 c.pool ≡ count 0 two_ready.pool)
    × ((sv : ℕ) × (e : WasmDispatcher) × (acquire c ≡ some (sv, e)))
Reach-recovers_example =
    Reach-recovers two_ready one_busy 0 refl refl (ground arith) refl
      (then_step two_ready one_busy here (begins two_ready one_busy 0 takes_first))
