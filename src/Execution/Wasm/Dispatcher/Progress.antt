-- ===== src/Execution/Wasm/Dispatcher/Progress.antt =====
-- internal/execution/wasm/dispatcher.go: a message that waits for an instance gets one.
use shimmy_wasm_go.Base.{List-cases, ℕ, zero, ◌<◌, ◌≡◌, refl, inl, inr, some, List, [], ◌∷◌, arith}
use shimmy_wasm_go.Execution.Wasm.Dispatcher.{WasmDispatcher, acquire, give_back}
use shimmy_wasm_go.Execution.Wasm.Dispatcher.Count.{count}
use shimmy_wasm_go.Execution.Wasm.Dispatcher.Exclusive.{ends, Reach, then_step, Reach-total}

-- Steps from `b` on that end messages, each with its answer or its error.
pub data Ends : WasmDispatcher → WasmDispatcher → Type 0 where
  rested : (b : WasmDispatcher) → Ends b b
  one_ends :
      (b c : WasmDispatcher) (sv : ℕ) → zero < count sv b.busy → Ends (give_back sv b) c → Ends b c

Ends-Reach : {d b c : WasmDispatcher} → Reach d b → Ends b c → Reach d c
Ends-Reach r (rested b) = r
Ends-Reach r (one_ends b c sv h e) = Ends-Reach (then_step b (give_back sv b) r (ends b sv h)) e

Ends-lost : {b c : WasmDispatcher} → Ends b c → c.lost ≡ b.lost
unfolding give_back
Ends-lost (rested b) = refl
Ends-lost (one_ends b c sv h e) = Ends-lost e

-- the messages that run end in the order of `busy`
all_end :
    (xs : List ℕ) (b : WasmDispatcher)
    → b.busy ≡ xs
    → (c : WasmDispatcher) × Ends b c × (c.busy ≡ [])
unfolding give_back
all_end [] b p = (b, rested b, p)
all_end (x ∷ xs) b p =
    let (c, e, q) = all_end xs (give_back x b) (grind arith) in
    (c, one_ends b c x (grind arith) e, q)

acquire_of_count :
    (i : ℕ) (c : WasmDispatcher)
    → zero < count i c.pool
    → (sv : ℕ) × (e : WasmDispatcher) × (acquire c ≡ some (sv, e))
unfolding acquire
acquire_of_count i c h = elim (List-cases c.pool) [
  | inl nil ↦ absurd (grind arith)
  | inr (x, xs, cons) ↦ (x, record c { pool = xs; busy = x ∷ c.busy }, grind arith)
]

-- Whatever messages have run and run, and however their steps interleaved: when those that have an
-- instance end, with an answer or an error, none is taken any more, and an instance that no panic
-- took along stands in the channel, so that a message which waits for one gets one.
pub Reach-recovers :
    (d b : WasmDispatcher) (i : ℕ)
    → d.busy ≡ []
    → d.lost ≡ []
    → zero < count i d.pool
    → count i b.lost ≡ zero
    → Reach d b
    → (c : WasmDispatcher) × Ends b c
      × (c.busy ≡ [])
      × (count i c.pool ≡ count i d.pool)
      × ((sv : ℕ) × (e : WasmDispatcher) × (acquire c ≡ some (sv, e)))
Reach-recovers d b i p q h l r =
    let (c, e, idle) = all_end b.busy b refl in
    let same = Reach-total i (Ends-Reach r e) in
    let kept : count i c.pool ≡ count i d.pool = grind (arith, Ends-lost e) in
    (c, e, idle, kept, acquire_of_count i c (grind arith))
