-- ===== src/Cmd/Tests.antt =====
-- Runs of the command line.
use mathlib.Core.List.{[], ◌∷◌, ◌++◌}
use shimmy_wasm_go.Base.{
  ℕ, Bytes, codes, bytes_eq, ◌≡◌, ◌≢◌, refl, true, false, ◌&&◌, Option, none, some, All, arith,
  if◌then◌else◌,
}
use shimmy_wasm_go.Exec.{Error, Result, ok, err}
use shimmy_wasm_go.Json.{pos}
use shimmy_wasm_go.Config.Flags.{
  Entries, lookup, string_flag, int_flag, duration_flag, Cli, provider,
}
use shimmy_wasm_go.Config.Parse.{Koanf, Sources, ParseOptions, parse, transform_flag}
use shimmy_wasm_go.Config.Parse.Precedence.{Laws, or_else, parse-precedence, cli_layer}
use shimmy_wasm_go.Cmd.Root.{FlagValue, text, duration, number}
use shimmy_wasm_go.Cmd.Shell.{exit_error, FxApp}
use shimmy_wasm_go.Cmd.Run.{
  Mode, standalone, lambda, run_command, serve_command, lambda_command, run_context, exit_status,
  is_aws_lambda,
}
use shimmy_wasm_go.Cmd.Run.Status.{served, run_context-modes, exit_status-ne-zero}

-- A store that is its list of entries, the newest first, and spells itself.
abbrev pub store : Koanf (Entries FlagValue) FlagValue (Entries FlagValue)
store = record { new = []; load = λ m k. m ++ k; get = λ p k. lookup p k; unmarshal = λ k. ok k }

lookup-append :
    (p : Bytes) (m k : Entries FlagValue) → lookup p (m ++ k) ≡ or_else (lookup p m) (lookup p k)
unfolding lookup
lookup-append p [] k = refl
lookup-append p ((q, v) ∷ m) k = ground (arith, lookup-append p m k)

pub store-Laws : Laws store
unfolding lookup
store-Laws = record { new_lem = λ p. refl; load_lem = λ p m k c. lookup-append p m k }

-- the flag of the command goes before the one of the application
abbrev both : Cli FlagValue
both = record {
  app_flags =
      record { name = codes "port"; kind = string_flag }
      ∷ record { name = codes "send-timeout"; kind = duration_flag }
      ∷ [];
  command_flags = record { name = codes "port"; kind = int_flag } ∷ [];
  get = λ kind name. number (pos 8080);
  value = λ name. duration (pos 30);
}

abbrev from_file : Entries FlagValue
from_file = (codes "port", number (pos 1)) ∷ (codes "host", text "a") ∷ []

abbrev from_env : Entries FlagValue
from_env = (codes "host", text "b") ∷ []

abbrev sources : Sources FlagValue
sources = record { file = λ name. ok from_file; env = λ prefix cb. ok from_env }

abbrev options : ParseOptions FlagValue
options = record {
  cli = some both;
  cli_map = [];
  defaults = (codes "host", text "c") ∷ [];
  env_prefix = [];
  file_name = codes "shimmy.json";
}

abbrev parsed_store : Entries FlagValue
parsed_store =
    cli_layer store store-Laws sources options ++ (from_env ++ (from_file ++ options.defaults))

parse_run : parse store sources options ≡ ok parsed_store
unfolding parse
parse_run = refl

parse-precedence_example :
    (k : Entries FlagValue) × (store.unmarshal k ≡ ok parsed_store)
    × (lookup (codes "host") k ≡ some (text "b"))
unfolding lookup shimmy_wasm_go.Base.has_prefix provider transform_flag
parse-precedence_example =
    parse-precedence store store-Laws sources options (codes "host") from_file from_env parsed_store
      refl refl refl refl refl refl parse_run

-- an application that starts, is told to end with 0, and stops
abbrev obedient : FxApp ℕ
obedient = record { start = λ n. (ok tt, n); wait = λ n. (pos 0, n); stop = λ n. (ok tt, n) }

abbrev modes : Mode → Result Error ℕ
modes mode = ok 8080

abbrev apps : Mode → ℕ → ℕ → ℕ → FxApp ℕ
apps mode log cfg d = obedient

run_context-modes_example :
    (run_context modes apps (ok 1) (ok 2) serve_command none 0 ≡ served modes apps 1 2 0 standalone)
    × (run_context modes apps (ok 1) (ok 2) lambda_command none 0 ≡ served modes apps 1 2 0 lambda)
    × (run_context modes apps (ok 1) (ok 2) run_command none 0 ≡ (
        if is_aws_lambda none
        then served modes apps 1 2 0 lambda
        else served modes apps 1 2 0 standalone))
run_context-modes_example = run_context-modes modes apps 1 2 none 0

-- a clean end
clean_end : (run_context modes apps (ok 1) (ok 2) run_command none 0).0 ≡ err (exit_error (pos 0))
unfolding run_context
clean_end = refl

exit_status-ne-zero_example :
    exit_status (run_context modes apps (ok 1) (ok 2) run_command none 0).0 ≢ 0
exit_status-ne-zero_example = exit_status-ne-zero modes apps (ok 1) (ok 2) run_command none 0
