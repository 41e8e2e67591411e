-- ===== src/Execution/Worker/Exit.antt =====
-- internal/execution/worker/worker.go: how a process ended.
use shimmy_wasm_go.Base.{
  zero, suc, ◌≡◌, ◌↔◌, refl, ◌⊎◌, inl, inr, ◌==◌, Bool, true, false, Option, none, some, ◌∷◌, ◌++◌,
  map, arith, Bytes, codes, trim_left, trim_right, if◌then◌else◌,
}
use shimmy_wasm_go.Base.Decimal.{decimal}
use shimmy_wasm_go.Json.{ℤ, pos, negsuc}

-- What `cmd.Wait` returns: no error, an exit error with the exit status and the signal of its wait
-- status, or another error, also an exit error without a wait status.
pub data WaitResult : Type 0 where
  clean : WaitResult
  exited : ℤ → ℤ → WaitResult
  unknown : WaitResult

-- `ExitEvent`
pub record ExitEvent : Type 0 where
  pub code : Option ℤ
  pub signal : Option ℤ
  pub stderr : Bytes

-- `Success`
unfoldable pub success : ExitEvent → Bool
success e = elim e.code [ none ↦ false | some n ↦ elim n [ pos k ↦ k == 0 | negsuc k ↦ false ] ]

-- `getExitEvent`
unfoldable pub get_exit_event : WaitResult → Bytes → ExitEvent
get_exit_event clean s = record { code = some (pos zero); signal = none; stderr = s }
get_exit_event (exited (pos n) sig) s = record { code = some (pos n); signal = none; stderr = s }
get_exit_event (exited (negsuc n) sig) s = record { code = none; signal = some sig; stderr = s }
get_exit_event unknown s = record { code = some (pos 1); signal = none; stderr = s }

-- `%d`
unfoldable pub signed : ℤ → Bytes
signed (pos n) = decimal n
signed (negsuc n) = b'-' ∷ decimal (suc n)

abbrev number_or_nil : Option ℤ → Bytes
number_or_nil none = codes "(nil)"
number_or_nil (some n) = signed n

-- `strings.ReplaceAll(s, "\n", " ")`
abbrev one_line : Bytes → Bytes
one_line = map (λ c. if c == b'\n' then b' ' else c)

-- `String`
unfoldable pub text : ExitEvent → Bytes
unfolding signed trim_left trim_right
text e =
    codes "code="
    ++ number_or_nil e.code
    ++ codes ", signal="
    ++ number_or_nil e.signal
    ++ codes ", stderr="
    ++ trim_right (λ c. c == b' ') (trim_left (λ c. c == b' ') (one_line e.stderr))

abbrev pub Succeeded : WaitResult → Type 0
Succeeded r = (r ≡ clean) ⊎ ((sig : ℤ) × (r ≡ exited (pos zero) sig))

-- The exit event of a process has a code or a signal and never both, and it is a success if and
-- only if the process ended with no error or with the exit status 0.
pub get_exit_event-one :
    (r : WaitResult) (s : Bytes)
    → let e = get_exit_event r s in
      (((n : ℤ) × (e.code ≡ some n) × (e.signal ≡ none))
        ⊎ ((n : ℤ) × (e.code ≡ none) × (e.signal ≡ some n)))
      × ((success e ≡ true) ↔ Succeeded r)
unfolding get_exit_event success
get_exit_event-one clean s = (inl (pos zero, refl, refl), ((λ q. inl refl), λ q. refl))
get_exit_event-one (exited (pos zero) sig) s =
    (inl (pos zero, refl, refl), ((λ q. inr (sig, refl)), λ q. refl))
get_exit_event-one (exited (pos (suc n)) sig) s =
    (inl (pos (suc n), refl, refl), ((λ q. absurd (ground arith)), λ q. absurd (ground arith)))
get_exit_event-one (exited (negsuc n) sig) s =
    (inr (sig, refl, refl), ((λ q. absurd (ground arith)), λ q. absurd (ground arith)))
get_exit_event-one unknown s =
    (inl (pos 1, refl, refl), ((λ q. absurd (ground arith)), λ q. absurd (ground arith)))
