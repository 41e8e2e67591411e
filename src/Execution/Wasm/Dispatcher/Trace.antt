-- ===== src/Execution/Wasm/Dispatcher/Trace.antt =====
-- What stands in the trace of a WebAssembly dispatcher behind its starts and its shutdown
-- (internal/execution/wasm/dispatcher.go).
use shimmy_wasm_go.Base.{
  ℕ, zero, suc, ◌+◌, ◌≤◌, ◌<◌, ◌≡◌, refl, ap, ◌∙◌, inl, inr, Bool, true, false, Option, List, [],
  ◌∷◌, ◌==◌, All, All-append, str_eq, arith, Option-cases, Bool-cases, if◌then◌else◌,
}
use mathlib.Core.Path.{subst}
use shimmy_wasm_go.Exec.{Error, ok}
use shimmy_wasm_go.Execution.Wasm.Dispatcher.{
  Event, started, shut, runtime_opened, runtime_closed, WasmDispatcher, Answers, instances,
  shut_all, fill, start,
}
use shimmy_wasm_go.Execution.Wasm.Dispatcher.Startup.{one_more}

abbrev pub is_opened : Event → Bool
is_opened runtime_opened = true
is_opened _ = false

abbrev pub is_closed : Event → Bool
is_closed runtime_closed = true
is_closed _ = false

-- the start and the shutdown of the instance `i`
abbrev pub is_started : ℕ → Event → Bool
is_started i (started j) = j == i
is_started i _ = false

abbrev pub is_shut : ℕ → Event → Bool
is_shut i (shut j) = j == i
is_shut i _ = false

-- how often an event of a kind stands in a trace
abbrev pub times : (Event → Bool) → List Event → ℕ
times p [] = 0
times p (e ∷ t) = if p e then suc (times p t) else times p t

-- the instances of a list have at least the number `n`
abbrev pub Above : ℕ → List ℕ → Type 0
Above n xs = All (λ j. n ≤ j) xs

pub shut_all-times :
    (p : Event → Bool) (n : ℕ) (svs : List ℕ) (t : List Event)
    → ((j : ℕ) → n ≤ j → p (shut j) ≡ false)
    → Above n svs
    → times p (shut_all svs t) ≡ times p t
unfolding shut_all
shut_all-times p n [] t h a = refl
shut_all-times p n (sv ∷ svs) t h a =
    shut_all-times p n svs (shut sv ∷ t) h a.1 ∙ rw (h sv a.0) refl

pub fill-times :
    (p : Event → Bool) (starts : ℕ → Option Error) (left i : ℕ) (d b : WasmDispatcher)
    → fill starts left i d ≡ (ok tt, b)
    → ((j : ℕ) → d.next ≤ j → p (started j) ≡ false)
    → times p b.trace ≡ times p d.trace
unfolding fill
fill-times p starts zero i d b e h = ground arith
fill-times p starts (suc left) i d b e h = elim (Option-cases (starts i)) [
  | inr (x, q) ↦ absurd (ground arith)
  | inl q ↦
      let next : fill starts left (suc i) (one_more d) ≡ (ok tt, b) = ground arith in
      fill-times p starts left (suc i) (one_more d) b next (λ j k. h j (omega arith))
      ∙ rw (h d.next (omega arith)) refl
]

-- Each instance of a start is started once.
pub fill-starts :
    (starts : ℕ → Option Error) (left i k : ℕ) (d b : WasmDispatcher)
    → fill starts left i d ≡ (ok tt, b)
    → d.next ≤ k
    → k < left + d.next
    → times (is_started k) b.trace ≡ suc (times (is_started k) d.trace)
unfolding fill
fill-starts starts zero i k d b e l u = absurd (omega arith)
fill-starts starts (suc left) i k d b e l u = elim (Option-cases (starts i)) [
  | inr (x, q) ↦ absurd (ground arith)
  | inl q ↦
      let next : fill starts left (suc i) (one_more d) ≡ (ok tt, b) = ground arith in
      elim (Bool-cases (d.next == k)) [
        | inl same ↦
            fill-times (is_started k) starts left (suc i) (one_more d) b next (λ j h. grind arith)
            ∙ rw same refl
        | inr other ↦
            fill-starts starts left (suc i) k (one_more d) b next (grind arith) (omega arith)
            ∙ ap suc (rw other refl)
      ]
]

pub fill-pool :
    (n : ℕ) (starts : ℕ → Option Error) (left i : ℕ) (d b : WasmDispatcher)
    → fill starts left i d ≡ (ok tt, b)
    → n ≤ d.next
    → Above n d.pool
    → (b.next ≡ left + d.next) × (b.has_runtime ≡ d.has_runtime) × Above n b.pool
unfolding fill
fill-pool n starts zero i d b e l a =
    let same : d ≡ b = ground arith in
    subst (λ z. (z.next ≡ 0 + d.next) × (z.has_runtime ≡ d.has_runtime) × Above n z.pool) same
      (omega arith, refl, a)
fill-pool n starts (suc left) i d b e l a = elim (Option-cases (starts i)) [
  | inr (x, q) ↦ absurd (ground arith)
  | inl q ↦
      let next : fill starts left (suc i) (one_more d) ≡ (ok tt, b) = ground arith in
      let grown = All-append (λ j. n ≤ j) d.pool (d.next ∷ []) a (l, tt) in
      let r = fill-pool n starts left (suc i) (one_more d) b next (omega arith) grown in
      (omega (arith, r.0), r.1, r.2)
]

abbrev pub opened_runtime : WasmDispatcher → WasmDispatcher
opened_runtime d = record d { pool = []; has_runtime = true; trace = runtime_opened ∷ d.trace }

-- A start opens a runtime and makes the channel anew, whatever was in it.
pub start-fill :
    (sys : Answers) (d b : WasmDispatcher)
    → start sys d ≡ (ok tt, b)
    → fill sys.starts (instances sys) zero (opened_runtime d) ≡ (ok tt, b)
unfolding start
start-fill sys d b e = elim (Bool-cases (str_eq sys.module_path "")) [
  | inl a ↦ absurd (ground arith)
  | inr a ↦ elim (Option-cases sys.read_file) [
    | inr (x, c) ↦ absurd (ground arith)
    | inl c ↦ elim (Option-cases sys.wasi) [
      | inr (x, w) ↦ absurd (ground arith)
      | inl w ↦ elim (Option-cases sys.compile) [
        | inr (x, g) ↦ absurd (ground arith)
        | inl g ↦ ground arith
      ]
    ]
  ]
]
