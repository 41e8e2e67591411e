-- ===== src/Cmd/Run.antt =====
-- cmd/run.go, serve.go, lambda.go, `Before` and `run` of cmd/root.go, app/app.go, and the contexts
-- of util/conf/context.go and util/logging/context.go.
pub mod Status
use shimmy_wasm_go.Base.{
  ℕ, Bytes, bytes_eq, codes, String, List, [], ◌∷◌, Bool, true, false, ◌&&◌, not, Option, none,
  some, if◌then◌else◌,
}
use shimmy_wasm_go.Exec.{Error, sentinel, message, Result, ok, err, panics}
use shimmy_wasm_go.Cmd.Shell.{CmdError, plain, FxApp}
use shimmy_wasm_go.Cmd.Shell

-- A value under the key of the configuration: of the type that is asked for, or of another.
pub data Stored (C : Type 0) : Type 0 where
  config : C → Stored C
  foreign : Stored C

-- A context, by the two values that the program puts into it; `none` is no value.
pub record Context (L C : Type 0) : Type 0 where
  pub logger : Option L
  pub stored : Option (Stored C)

infixl 5 ◌>>=◌
abbrev ◌>>=◌ : {A B : Type 0} → Result Error A → (A → Result Error B) → Result Error B
ok a >>= f = f a
err e >>= f = err e
panics >>= f = panics

module _ {L C : Type 0} where
  -- `ContextWithLogger` and `LoggerFromContext`
  unfoldable pub context_with_logger : Context L C → L → Context L C
  context_with_logger ctx log = record ctx { logger = some log }

  unfoldable pub logger_from_context : Context L C → Result Error L
  logger_from_context ctx = elim ctx.logger [
    | some log ↦ ok log
    | none ↦ err (sentinel "no logger in context")
  ]

  -- `ContextWithConfig` and `GetConfigFromContext`
  unfoldable pub context_with_config : Context L C → C → Context L C
  context_with_config ctx c = record ctx { stored = some (config c) }

  unfoldable pub get_config_from_context : Context L C → Result Error C
  get_config_from_context ctx = elim ctx.stored [
    | none ↦ err (message "config not found in context")
    | some (config c) ↦ ok c
    | some foreign ↦ err (message "invalid config in context")
  ]

  -- `Before`, for what `createLogger` and `parseRootConfig` return
  unfoldable pub before : Result Error L → Result Error C → Context L C → Result Error (Context L C)
  unfolding context_with_logger context_with_config
  before created parsed ctx = do
    log ← created
    cfg ← parsed
    ok (context_with_config (context_with_logger ctx log) cfg)

  -- `app.New`: what the shell is made from
  unfoldable pub new_app : Context L C → Result Error (L × C)
  unfolding logger_from_context get_config_from_context
  new_app ctx = do log ← logger_from_context ctx; cfg ← get_config_from_context ctx; ok (log, cfg)

-- the two ways to serve
pub data Mode : Type 0 where
  standalone lambda : Mode

-- the commands
pub data Command : Type 0 where
  run_command serve_command lambda_command : Command

abbrev is_set : Bytes → Bool
is_set [] = false
is_set (c ∷ s) = true

-- `isAWSLambda`, for the variable AWS_LAMBDA_RUNTIME_API
unfoldable pub is_aws_lambda : Option Bytes → Bool
is_aws_lambda none = false
is_aws_lambda (some env) = is_set env

abbrev pub failed : {A : Type 0} → Error → A → Result CmdError (Unit {0}) × A
failed e s = (err (plain e), s)

-- `apps` is the application that fx makes from the modules of a mode, `parsed` what `conf.Parse`
-- returns for the mode's own configuration.
module _ {L C D A : Type 0} (parsed : Mode → Result Error D)
    (apps : Mode → L → C → D → FxApp A) where
  abbrev pub parsed_action : Mode → L × C → Result Error D → A → Result CmdError (Unit {0}) × A
  parsed_action mode (log, cfg) (ok d) s = Shell.run (apps mode log cfg d) s
  parsed_action mode (log, cfg) (err e) s = failed e s
  parsed_action mode (log, cfg) panics s = (panics, s)

  abbrev app_action : Mode → Result Error (L × C) → A → Result CmdError (Unit {0}) × A
  app_action mode (ok app) s = parsed_action mode app (parsed mode) s
  app_action mode (err e) s = failed e s
  app_action mode panics s = (panics, s)

  abbrev logged :
      {B : Type 0}
      → Result Error B
      → (A → Result CmdError (Unit {0}) × A)
      → A
      → Result CmdError (Unit {0}) × A
  logged (ok log) f s = f s
  logged (err e) f s = failed e s
  logged panics f s = (panics, s)

  -- `serveAction` and `lambdaAction`
  unfoldable pub mode_action : Mode → Context L C → A → Result CmdError (Unit {0}) × A
  unfolding logger_from_context new_app Shell.run
  mode_action mode ctx = logged (logger_from_context ctx) (app_action mode (new_app ctx))

  -- `runAction`
  unfoldable pub run_action : Option Bytes → Context L C → A → Result CmdError (Unit {0}) × A
  unfolding logger_from_context is_aws_lambda mode_action
  run_action env ctx =
      logged (logger_from_context ctx)
        (if is_aws_lambda env then mode_action lambda ctx else mode_action standalone ctx)

  abbrev pub action : Command → Option Bytes → Context L C → A → Result CmdError (Unit {0}) × A
  action run_command env = run_action env
  action serve_command env = mode_action standalone
  action lambda_command env = mode_action lambda

  abbrev entered :
      Command → Option Bytes → Result Error (Context L C) → A → Result CmdError (Unit {0}) × A
  entered cmd env (ok ctx) s = action cmd env ctx s
  entered cmd env (err e) s = failed e s
  entered cmd env panics s = (panics, s)

  abbrev background : Context L C
  background = record { logger = none; stored = none }

  -- `RunContext` of the command line package: `Before` goes before the command's action.
  unfoldable pub run_context :
      Result Error L → Result Error C → Command → Option Bytes → A → Result CmdError (Unit {0}) × A
  unfolding before run_action mode_action
  run_context created cfg cmd env = entered cmd env (before created cfg background)

-- `run` of cmd/root.go: the status with which the process ends; a panic ends it with 2
unfoldable pub exit_status : Result CmdError (Unit {0}) → ℕ
exit_status (ok _) = 0
exit_status (err e) = 1
exit_status panics = 2
