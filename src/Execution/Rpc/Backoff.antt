-- ===== src/Execution/Rpc/Backoff.antt =====
-- internal/execution/supervisor/adapter_rpc.go: `dialRpcWithRetry`.
use shimmy_wasm_go.Base.{
  ℕ, zero, suc, ◌+◌, ◌-◌, ◌*◌, ◌%◌, ◌^◌, ◌≤◌, ◌<◌, min, ltb, ◌≡◌, ◌≢◌, sym, ◌⊎◌, inl, inr, Bool,
  true, false, Option, none, some, if◌then◌else◌, arith, Option-cases, Bool-cases,
}
use shimmy_wasm_go.Json.{ℤ, pos, negsuc}
use mathlib.Core.Path.{subst}
use native.Mathlib.Nat.{pow-le-pow_right}

-- An int64 with the bits of a number.
unfoldable pub int64 : ℕ → ℤ
int64 n = let r = n % 2 ^ 64 in if ltb r (2 ^ 63) then pos r else negsuc (2 ^ 64 - suc r)

-- `min` with the greatest delay, as the code writes it
abbrev capped : ℕ → ℤ → ℤ
capped most (pos d) = if ltb most d then pos most else pos d
capped most (negsuc d) = negsuc d

-- The delay behind the attempt `i` in nanoseconds: 100 ms, doubled each time, and 10 s at most. The
-- product wraps. (From the attempt 63 on the power is no int64, and the conversion is the
-- platform's.)
unfoldable pub delay : ℕ → ℤ
unfolding int64
delay i = capped 10000000000 (int64 (100000000 * 2 ^ i))

pub data Dialled : Type 0 where
  connected : ℕ → ℕ → Dialled
  gave_up : ℕ → Dialled
  out_of_fuel : Dialled

-- The loop of `dialRpcWithRetry`, for the dials and for whether the context ends in the wait behind
-- the attempt. The loop has no bound of its own.
retry : (ℕ → Option ℕ) → (ℕ → Bool) → ℕ → ℕ → Dialled
retry dial done zero i = out_of_fuel
retry dial done (suc fuel) i =
    let rest = retry dial done fuel (suc i) in
    elim (dial i) [ some c ↦ connected c i | none ↦ if done i then gave_up i else rest ]

unfoldable pub dial_rpc_with_retry : (ℕ → Option ℕ) → (ℕ → Bool) → ℕ → Dialled
unfolding retry
dial_rpc_with_retry dial done fuel = retry dial done fuel zero

-- the attempts below `n` fail, and the context is open behind each
abbrev pub Failed : (ℕ → Option ℕ) → (ℕ → Bool) → ℕ → Type 0
Failed dial done n = (j : ℕ) → j < n → (dial j ≡ none) × (done j ≡ false)

abbrev pub Settled : (ℕ → Option ℕ) → (ℕ → Bool) → Dialled → Type 0
Settled dial done (connected c n) = (dial n ≡ some c) × Failed dial done n
Settled dial done (gave_up n) = (dial n ≡ none) × (done n ≡ true) × Failed dial done n
Settled dial done out_of_fuel = ⊥

Failed-suc :
    (dial : ℕ → Option ℕ) (done : ℕ → Bool) (i : ℕ)
    → Failed dial done i
    → dial i ≡ none
    → done i ≡ false
    → Failed dial done (suc i)
Failed-suc dial done i f p q j h = grind (arith, f j)

retry-Settled :
    (dial : ℕ → Option ℕ) (done : ℕ → Bool) (fuel i n : ℕ)
    → Failed dial done i
    → i ≤ n
    → n < i + fuel
    → (dial n ≢ none) ⊎ (done n ≡ true)
    → Settled dial done (retry dial done fuel i)
unfolding retry
retry-Settled dial done zero i n f h l e = absurd (omega arith)
retry-Settled dial done (suc fuel) i n f h l e = elim (Option-cases (dial i)) [
  | inr (c, p) ↦
      let same : retry dial done (suc fuel) i ≡ connected c i = ground arith in
      subst (Settled dial done) (sym same) (p, f)
  | inl p ↦ elim (Bool-cases (done i)) [
    | inr q ↦
        let same : retry dial done (suc fuel) i ≡ retry dial done fuel (suc i) = ground arith in
        subst (Settled dial done) (sym same) (
          retry-Settled dial done fuel (suc i) n (Failed-suc dial done i f p q) (grind arith)
            (omega arith) e)
    | inl q ↦
        let same : retry dial done (suc fuel) i ≡ gave_up i = ground arith in
        subst (Settled dial done) (sym same) (p, q, f)
  ]
]

-- If a dial of the attempts up to `n` succeeds or the context has ended behind the attempt `n`, the
-- loop ends, at fuel above `n`: at the first attempt that connects, with its client, or at the
-- first one behind which the context has ended, with an error.
pub dial_rpc_with_retry-Settled :
    (dial : ℕ → Option ℕ) (done : ℕ → Bool) (fuel n : ℕ)
    → n < fuel
    → (dial n ≢ none) ⊎ (done n ≡ true)
    → Settled dial done (dial_rpc_with_retry dial done fuel)
unfolding dial_rpc_with_retry
dial_rpc_with_retry-Settled dial done fuel n h e =
    retry-Settled dial done fuel zero n (λ j l. absurd (omega arith)) (omega arith) (omega arith) e

power_below : (i : ℕ) → i < 37 → 2 ^ i ≤ 2 ^ 36
power_below i h =
    let two : zero < 2 = omega arith in let le : i ≤ 36 = omega arith in pow-le-pow_right two le

-- The delay behind each of the first 37 attempts is 100 ms times 2 to the attempt, and 10 s at
-- most.
pub delay-doubles : (i : ℕ) → i < 37 → delay i ≡ pos (min (100000000 * 2 ^ i) 10000000000)
unfolding delay int64
delay-doubles i h = grind (arith, power_below i h)
