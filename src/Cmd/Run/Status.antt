-- ===== src/Cmd/Run/Status.antt =====
-- How the program ends.
use shimmy_wasm_go.Base.{Bytes, ◌≡◌, ◌≢◌, refl, Option, arith, if◌then◌else◌}
use shimmy_wasm_go.Exec.{Error, Result, ok}
use shimmy_wasm_go.Cmd.Shell.{CmdError, exit_error, plain, FxApp}
use shimmy_wasm_go.Cmd.Shell
use shimmy_wasm_go.Cmd.Run.{
  Context, before, new_app, logger_from_context, Mode, standalone, lambda, Command, is_aws_lambda,
  mode_action, run_action, parsed_action, run_context, exit_status, run_command, serve_command,
  lambda_command,
}

run-ne-ok : {A : Type 0} (app : FxApp A) (s : A) → (Shell.run app s).0 ≢ ok tt
unfolding Shell.run
run-ne-ok app s p = ground arith

module _ {L C D A : Type 0} (parsed : Mode → Result Error D)
    (apps : Mode → L → C → D → FxApp A) where
  mode_action-ne-ok :
      (mode : Mode) (ctx : Context L C) (s : A) → (mode_action parsed apps mode ctx s).0 ≢ ok tt
  unfolding mode_action logger_from_context
  mode_action-ne-ok mode ctx s p = grind (arith, run-ne-ok)

  -- the application of a mode, from its logger and its two configurations
  abbrev pub served : L → C → A → Mode → Result CmdError (Unit {0}) × A
  served log cfg s mode = parsed_action parsed apps mode (log, cfg) (parsed mode) s

  -- Once `Before` has made the logger and the configuration, each command has them: it runs the
  -- application of its mode, and `run` that of Lambda if and only if the variable is there and has a
  -- text.
  pub run_context-modes :
      (log : L) (cfg : C) (env : Option Bytes) (s : A)
      → (run_context parsed apps (ok log) (ok cfg) serve_command env s
          ≡ served log cfg s standalone)
        × (run_context parsed apps (ok log) (ok cfg) lambda_command env s ≡ served log cfg s lambda)
        × (run_context parsed apps (ok log) (ok cfg) run_command env s
            ≡ (if is_aws_lambda env then served log cfg s lambda else served log cfg s standalone))
  unfolding run_context before run_action mode_action new_app
  run_context-modes log cfg env s = (refl, refl, ground arith)

  -- The program never ends with the status 0 once a command runs, also where the application has
  -- started, was told to end with the code 0 and has stopped: the shell returns an `ExitError` in
  -- each case, and its code is not used.
  pub exit_status-ne-zero :
      (created : Result Error L) (cfg : Result Error C) (cmd : Command) (env : Option Bytes) (s : A)
      → exit_status (run_context parsed apps created cfg cmd env s).0 ≢ 0
  unfolding exit_status run_context before run_action
  exit_status-ne-zero created cfg cmd env s p = grind (arith, mode_action-ne-ok)
