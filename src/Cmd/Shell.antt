-- ===== src/Cmd/Shell.antt =====
-- internal/shell/: the life of the application, which the package fx builds, starts and stops.
use shimmy_wasm_go.Base.{Bool, true, false, Option, none, some}
use shimmy_wasm_go.Exec.{Error, Exec, Result, ok, err, panics}
use shimmy_wasm_go.Json.{ℤ, pos}

-- An error of the command line: `ExitError`, or another one.
pub data CmdError : Type 0 where
  exit_error : ℤ → CmdError
  plain : Error → CmdError

-- `NewExitError`
abbrev pub new_exit_error : ℤ → CmdError
new_exit_error code = exit_error code

-- `IsExitError`; `none` is nil
unfoldable pub is_exit_error : Option CmdError → Bool
is_exit_error none = false
is_exit_error (some (exit_error code)) = true
is_exit_error (some (plain e)) = false

-- An application of fx: `Start`, the signal that `Wait` gives, by its exit code, and `Stop`.
pub record FxApp (A : Type 0) : Type 0 where
  pub start : Exec Error A (Unit {0})
  pub wait : A → ℤ × A
  pub stop : Exec Error A (Unit {0})

module _ {A : Type 0} (app : FxApp A) where
  abbrev stopped : ℤ → Result Error (Unit {0}) × A → Result CmdError (Unit {0}) × A
  stopped code (ok _, s) = (err (new_exit_error code), s)
  stopped code (err e, s) = (err (new_exit_error (pos 1)), s)
  stopped code (panics, s) = (panics, s)

  abbrev started : Result Error (Unit {0}) × A → Result CmdError (Unit {0}) × A
  started (ok _, s) = let (code, t) = app.wait s in stopped code (app.stop t)
  started (err e, s) = (err (new_exit_error (pos 1)), s)
  started (panics, s) = (panics, s)

  -- `Run`
  unfoldable pub run : A → Result CmdError (Unit {0}) × A
  run s = started (app.start s)
