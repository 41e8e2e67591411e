-- ===== src/Execution/Wasm/Dispatcher/Startup.antt =====
-- internal/execution/wasm/dispatcher.go: the instances that are up behind `Start` and `Shutdown`.
use shimmy_wasm_go.Base.{
  ℕ, zero, suc, ◌≡◌, refl, sym, ap, ◌∙◌, inl, inr, true, Option, List, [], ◌∷◌, ◌++◌, append_assoc,
  append-nil, str_eq, arith, Option-cases, Bool-cases,
}
use mathlib.Core.Path.{subst}
use shimmy_wasm_go.Exec.{Error, ok, err}
use shimmy_wasm_go.Json.{ℤ, pos, negsuc}
use shimmy_wasm_go.Execution.Wasm.Dispatcher.Count.{
  count, count-append, count-without, nil_of_count,
}
use shimmy_wasm_go.Execution.Wasm.Dispatcher.{
  Event, started, shut, runtime_opened, runtime_closed, WasmDispatcher, Answers, new, instances,
  shut_all, drain_pool, fill, start, shut_down, without,
}

-- the instances that were started and not shut, newest first
abbrev pub up : List Event → List ℕ
up [] = []
up (started i ∷ t) = i ∷ up t
up (shut i ∷ t) = without i (up t)
up (_ ∷ t) = up t

-- the numbers from `i` on
abbrev pub from : ℕ → ℕ → List ℕ
from i zero = []
from i (suc n) = i ∷ from (suc i) n

-- The instances that are up are those of the channel.
abbrev pub AllReady : WasmDispatcher → Type 0
AllReady d = (i : ℕ) → count i (up d.trace) ≡ count i d.pool

shut_all-count :
    (xs : List ℕ) (t : List Event) (i : ℕ)
    → ((j : ℕ) → count j (up t) ≡ count j xs)
    → count i (up (shut_all xs t)) ≡ zero
unfolding shut_all
shut_all-count [] t i h = h i
shut_all-count (x ∷ xs) t i h =
    shut_all-count xs (shut x ∷ t) i
      (λ j. grind (arith, h j, count-without j x (up t) (grind (arith, h x))))

drain_pool-stops : (d : WasmDispatcher) → AllReady d → up (drain_pool d).trace ≡ []
unfolding drain_pool
drain_pool-stops d h = nil_of_count _ (λ i. shut_all-count d.pool d.trace i h)

abbrev pub one_more : WasmDispatcher → WasmDispatcher
one_more d = record d {
  pool = d.pool ++ d.next ∷ [];
  next = suc d.next;
  trace = started d.next ∷ d.trace;
}

one_more-Ready : (d : WasmDispatcher) → AllReady d → AllReady (one_more d)
one_more-Ready d h j = grind (arith, h j, count-append j d.pool (d.next ∷ []))

fill-Ready :
    (starts : ℕ → Option Error) (left i : ℕ) (d b : WasmDispatcher)
    → AllReady d
    → fill starts left i d ≡ (ok tt, b)
    → (b.pool ≡ d.pool ++ from d.next left)
      × (b.busy ≡ d.busy)
      × (b.lost ≡ d.lost)
      × (b.has_runtime ≡ d.has_runtime)
      × AllReady b
unfolding fill
fill-Ready starts zero i d b h e =
    let same : d ≡ b = ground arith in
    subst
      (λ z.
        (z.pool ≡ d.pool ++ [])
        × (z.busy ≡ d.busy)
        × (z.lost ≡ d.lost)
        × (z.has_runtime ≡ d.has_runtime)
        × AllReady z)
      same (sym (append-nil d.pool), refl, refl, refl, h)
fill-Ready starts (suc left) i d b h e = elim (Option-cases (starts i)) [
  | inr (x, p) ↦ absurd (ground arith)
  | inl p ↦
      let next : fill starts left (suc i) (one_more d) ≡ (ok tt, b) = ground arith in
      let x = fill-Ready starts left (suc i) (one_more d) b (one_more-Ready d h) next in
      (x.0 ∙ append_assoc d.pool (d.next ∷ []) (from (suc d.next) left), x.1, x.2, x.3, x.4)
]

fill-aborts :
    (starts : ℕ → Option Error) (left i : ℕ) (d b : WasmDispatcher) (x : Error)
    → AllReady d
    → fill starts left i d ≡ (err x, b)
    → (up b.trace ≡ []) × (b.pool ≡ [])
unfolding fill
fill-aborts starts zero i d b x h e = absurd (ground arith)
fill-aborts starts (suc left) i d b x h e = elim (Option-cases (starts i)) [
  | inr (y, p) ↦
      let got : b ≡ record (drain_pool d) { trace = runtime_closed ∷ (drain_pool d).trace } =
        ground arith in
      (
        ap (λ z. up z.trace) got ∙ drain_pool-stops d h,
        ap (λ z. z.pool) got ∙ unfold drain_pool in refl,
      )
  | inl p ↦
      let next : fill starts left (suc i) (one_more d) ≡ (err x, b) = ground arith in
      fill-aborts starts left (suc i) (one_more d) b x (one_more-Ready d h) next
]

-- the dispatcher in front of the first instance
abbrev base : WasmDispatcher
base = record new { has_runtime = true; trace = runtime_opened ∷ [] }

-- The channel of a configured number, or of the number of CPUs where that is not positive.
abbrev pub Filled : ℤ → ℕ → List ℕ → Type 0
Filled (pos (suc n)) cpus pool = pool ≡ from zero (suc n)
Filled (pos zero) cpus pool = pool ≡ from zero cpus
Filled (negsuc n) cpus pool = pool ≡ from zero cpus

Filled-instances :
    (z : ℤ) (sys : Answers) (pool : List ℕ)
    → sys.max_instances ≡ z
    → pool ≡ from zero (instances sys)
    → Filled z sys.cpus pool
unfolding instances
Filled-instances (pos (suc n)) sys pool e p = rw e at p
Filled-instances (pos zero) sys pool e p = rw e at p
Filled-instances (negsuc n) sys pool e p = rw e at p

-- If the start of the dispatcher succeeds, the channel has the configured number of instances, or
-- as many as there are CPUs if that is not positive, in order and each one up, and none is taken.
pub start-fills :
    (sys : Answers) (d : WasmDispatcher)
    → start sys new ≡ (ok tt, d)
    → (d.pool ≡ from zero (instances sys))
      × Filled sys.max_instances sys.cpus d.pool
      × (d.busy ≡ [])
      × (d.lost ≡ [])
      × (d.has_runtime ≡ true)
      × AllReady d
unfolding start
start-fills sys d e = elim (Bool-cases (str_eq sys.module_path "")) [
  | inl a ↦ absurd (ground arith)
  | inr a ↦ elim (Option-cases sys.read_file) [
    | inr (x, b) ↦ absurd (ground arith)
    | inl b ↦ elim (Option-cases sys.wasi) [
      | inr (x, c) ↦ absurd (ground arith)
      | inl c ↦ elim (Option-cases sys.compile) [
        | inr (x, g) ↦ absurd (ground arith)
        | inl g ↦
            let next : fill sys.starts (instances sys) zero base ≡ (ok tt, d) = ground arith in
            let k = fill-Ready sys.starts (instances sys) zero base d (λ j. refl) next in
            (k.0, Filled-instances sys.max_instances sys d.pool refl k.0, k.1, k.2, k.3, k.4)
      ]
    ]
  ]
]

-- If the start of the dispatcher fails, no instance is up, and the channel is empty.
pub start-aborts :
    (sys : Answers) (d : WasmDispatcher) (x : Error)
    → start sys new ≡ (err x, d)
    → (up d.trace ≡ []) × (d.pool ≡ [])
unfolding start
start-aborts sys d x e = elim (Bool-cases (str_eq sys.module_path "")) [
  | inl a ↦ ground arith
  | inr a ↦ elim (Option-cases sys.read_file) [
    | inr (y, b) ↦ ground arith
    | inl b ↦ elim (Option-cases sys.wasi) [
      | inr (y, c) ↦ ground arith
      | inl c ↦ elim (Option-cases sys.compile) [
        | inr (y, g) ↦ ground arith
        | inl g ↦
            let next : fill sys.starts (instances sys) zero base ≡ (err x, d) = ground arith in
            fill-aborts sys.starts (instances sys) zero base d x (λ j. refl) next
      ]
    ]
  ]
]

-- A shutdown of a dispatcher whose instances that are up are all in the channel leaves none up,
-- whether the runtime closes or not.
pub shut_down-stops :
    (close : Option Error) (d : WasmDispatcher)
    → AllReady d
    → (up (shut_down close d).1.trace ≡ []) × ((shut_down close d).1.pool ≡ [])
unfolding shut_down
shut_down-stops close d h = (grind (arith, drain_pool-stops d h), unfold drain_pool in ground arith)
