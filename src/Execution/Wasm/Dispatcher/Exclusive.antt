-- ===== src/Execution/Wasm/Dispatcher/Exclusive.antt =====
-- internal/execution/wasm/dispatcher.go: messages that run at the same time, as interleaved steps.
use shimmy_wasm_go.Base.{
  List-cases, ℕ, zero, ◌+◌, ◌≤◌, ◌<◌, ◌≡◌, ◌≢◌, refl, sym, ◌∙◌, inl, inr, some, List, [], ◌∷◌, ◌++◌,
  arith,
}
use mathlib.Core.Path.{subst}
use shimmy_wasm_go.Exec.{Error, Result, panics, Result-cases}
use shimmy_wasm_go.Json.{Map}
use shimmy_wasm_go.Execution.Wasm.Dispatcher.Count.{count, count-append, count-without}
use shimmy_wasm_go.Execution.Wasm.Dispatcher.{WasmDispatcher, acquire, give_back, lose, send}

-- One step of some message: it gets an instance, gives it back, or panics with it.
pub data Step : WasmDispatcher → WasmDispatcher → Type 0 where
  begins : (d b : WasmDispatcher) (sv : ℕ) → acquire d ≡ some (sv, b) → Step d b
  ends : (d : WasmDispatcher) (sv : ℕ) → zero < count sv d.busy → Step d (give_back sv d)
  panicked : (d : WasmDispatcher) (sv : ℕ) → zero < count sv d.busy → Step d (lose sv d)

pub data Reach (d : WasmDispatcher) : WasmDispatcher → Type 0 where
  here : Reach d d
  then_step : (b c : WasmDispatcher) → Reach d b → Step b c → Reach d c

-- how often an instance is in the channel, with a message, or lost
abbrev pub total : ℕ → WasmDispatcher → ℕ
total i d = count i d.pool + (count i d.busy + count i d.lost)

begins-total :
    (i : ℕ) (d b : WasmDispatcher) (sv : ℕ) → acquire d ≡ some (sv, b) → total i b ≡ total i d
unfolding acquire
begins-total i d b sv e = elim (List-cases d.pool) [
  | inl p ↦ absurd (ground arith)
  | inr (x, xs, p) ↦
      let got : b ≡ record d { pool = xs; busy = x ∷ d.busy } = ground arith in
      rw got (rw p (omega arith))
]

Step-total : (i : ℕ) {d b : WasmDispatcher} → Step d b → total i b ≡ total i d
unfolding acquire give_back lose
Step-total i (begins d b sv e) = begins-total i d b sv e
Step-total i (ends d sv h) =
    grind (arith, count-append i d.pool (sv ∷ []), count-without i sv d.busy h)
Step-total i (panicked d sv h) = grind (arith, count-without i sv d.busy h)

pub Reach-total : (i : ℕ) {d b : WasmDispatcher} → Reach d b → total i b ≡ total i d
Reach-total i here = refl
Reach-total i (then_step b c r s) = Step-total i s ∙ Reach-total i r

-- From a dispatcher in whose channel each instance stands at most once, whatever messages run and
-- however their steps interleave: no instance is with two messages or with one and in the channel.
pub Reach-exclusive :
    (d b : WasmDispatcher) (i : ℕ)
    → d.busy ≡ []
    → d.lost ≡ []
    → count i d.pool ≤ 1
    → Reach d b
    → count i b.pool + (count i b.busy + count i b.lost) ≤ 1
Reach-exclusive d b i p q h r = grind (arith, Reach-total i r)

-- Instances that are not lost stay: an instance of the channel that no panic took along is later in
-- the channel or with a message.
pub Reach-keeps :
    (d b : WasmDispatcher) (i : ℕ)
    → zero < count i d.pool
    → count i b.lost ≡ zero
    → Reach d b
    → zero < count i b.pool + count i b.busy
Reach-keeps d b i h l r = grind (arith, Reach-total i r)

-- A message alone that gets an instance and does not panic is two steps: it leaves no instance
-- taken, and the one it had stands at the end of the channel.
pub send-returns :
    (ctx : Error) (answer : ℕ → Result Error Map) (d : WasmDispatcher) (sv : ℕ) (rest : List ℕ)
    → d.pool ≡ sv ∷ rest
    → answer sv ≢ panics
    → ((send ctx answer d).1 ≡ record d { pool = rest ++ sv ∷ [] }) × Reach d (send ctx answer d).1
unfolding send acquire give_back
send-returns ctx answer d sv rest p k =
    let got : acquire d ≡ some (sv, record d { pool = rest; busy = sv ∷ d.busy }) = ground arith in
    let same : (send ctx answer d).1 ≡ give_back sv (record d { pool = rest; busy = sv ∷ d.busy }) =
      elim (Result-cases (answer sv)) [
        | inl (m, a) ↦ ground arith
        | inr (inl (e, a)) ↦ ground arith
        | inr (inr a) ↦ absurd (k a)
      ] in
    let b = record d { pool = rest; busy = sv ∷ d.busy } in
    (
      same ∙ grind arith,
      subst (Reach d) (sym same) (
          then_step b (give_back sv b) (then_step d b here (begins d b sv got))
            (ends b sv (grind arith))),
    )
