-- ===== src/Cmd/Root.antt =====
-- cmd/root.go: the flags, the configuration that they give, and the logger. What the command line
-- sets the flags to is read by the package urfave/cli, a parameter here.
pub mod Settings
pub mod Configured
pub mod Launch
use shimmy_wasm_go.Base.{
  ℕ, Bytes, codes, String, str_eq, List, [], ◌∷◌, ◌++◌, map, Bool, true, false, Option, none, some,
  if◌then◌else◌, ◌*◌,
}
use shimmy_wasm_go.Exec.{Error, message, Result, ok, err, panics}
use shimmy_wasm_go.Json.{ℤ, pos}
use shimmy_wasm_go.Config.Flags.{
  Entries, Flag, FlagKind, string_flag, string_slice_flag, int_flag, bool_flag, duration_flag, Cli,
}
use shimmy_wasm_go.Config.Parse.{Koanf, Sources, ParseOptions, parse}

-- What a flag may be set to: a duration is in nanoseconds.
pub data FlagValue : Type 0 where
  text : String → FlagValue
  texts : List String → FlagValue
  number duration : ℤ → FlagValue
  switch : Bool → FlagValue

-- A flag as it is declared: its other names, its default and the variables that set it.
pub record FlagSpec : Type 0 where
  pub flag : Flag
  pub aliases : List Bytes
  pub value : FlagValue
  pub env_vars : List Bytes
  pub required : Bool

abbrev pub spec : FlagKind → Bytes → List Bytes → FlagValue → Bytes → FlagSpec
spec kind name aliases value env_var = record {
  flag = record { name = name; kind = kind };
  aliases = aliases;
  value = value;
  env_vars = env_var ∷ [];
  required = false;
}

abbrev unset : FlagValue
unset = text ""

abbrev no_texts : FlagValue
no_texts = texts []

abbrev second : ℕ
second = 1000000000

-- the flags of `rootApp`
abbrev pub root_flags : List FlagSpec
root_flags =
    spec string_flag (codes "log-level") [] unset (codes "LOG_LEVEL")
    ∷ spec string_flag (codes "log-format") [] unset (codes "LOG_FORMAT")
    ∷ spec string_flag (codes "auth-key") [] unset (codes "AUTH_KEY")
    ∷ spec string_flag (codes "interface") (codes "i" ∷ []) (text "rpc")
        (codes "FUNCTION_INTERFACE")
    ∷ record (spec string_flag (codes "command") (codes "c" ∷ []) unset
        (codes "FUNCTION_COMMAND")) { required = true }
    ∷ spec string_flag (codes "cwd") (codes "d" ∷ []) unset (codes "FUNCTION_WORKING_DIR")
    ∷ spec string_slice_flag (codes "arg") (codes "a" ∷ []) no_texts (codes "FUNCTION_ARGS")
    ∷ spec string_slice_flag (codes "env") (codes "e" ∷ []) no_texts (codes "FUNCTION_ENV")
    ∷ spec int_flag (codes "max-workers") (codes "n" ∷ []) (number (pos 0))
        (codes "FUNCTION_MAX_PROCS")
    ∷ spec duration_flag (codes "worker-stop-timeout") [] (duration (pos (5 * second)))
        (codes "FUNCTION_WORKER_STOP_TIMEOUT")
    ∷ spec duration_flag (codes "worker-send-timeout") [] (duration (pos (30 * second)))
        (codes "FUNCTION_WORKER_SEND_TIMEOUT")
    ∷ spec string_flag (codes "rpc-transport") (codes "t" ∷ []) (text "stdio")
        (codes "FUNCTION_RPC_TRANSPORT")
    ∷ spec string_flag (codes "rpc-transport-ipc-endpoint") [] unset
        (codes "FUNCTION_RPC_TRANSPORT_IPC_ENDPOINT")
    ∷ spec string_flag (codes "rpc-transport-http-url") [] (text "http://127.0.0.1:7321")
        (codes "FUNCTION_RPC_TRANSPORT_HTTP_URL")
    ∷ spec string_flag (codes "rpc-transport-ws-url") [] (text "ws://127.0.0.1:7321")
        (codes "FUNCTION_RPC_TRANSPORT_WS_URL")
    ∷ spec string_flag (codes "rpc-transport-tcp-address") [] (text "127.0.0.1:7321")
        (codes "FUNCTION_RPC_TRANSPORT_TCP_ADDRESS")
    ∷ []

-- `cliMap`
abbrev pub cli_map : Entries Bytes
cli_map =
    (codes "auth-key", codes "auth.key")
    ∷ (codes "max-workers", codes "runtime.max_workers")
    ∷ (codes "command", codes "runtime.cmd")
    ∷ (codes "cwd", codes "runtime.cwd")
    ∷ (codes "arg", codes "runtime.arg")
    ∷ (codes "env", codes "runtime.env")
    ∷ (codes "interface", codes "runtime.io.interface")
    ∷ (codes "rpc-transport", codes "runtime.io.rpc.transport")
    ∷ (codes "rpc-transport-ipc-endpoint", codes "runtime.io.rpc.ipc.endpoint")
    ∷ (codes "rpc-transport-http-url", codes "runtime.io.rpc.http.url")
    ∷ (codes "rpc-transport-ws-url", codes "runtime.io.rpc.ws.url")
    ∷ (codes "rpc-transport-tcp-address", codes "runtime.io.rpc.tcp.address")
    ∷ (codes "worker-send-timeout", codes "runtime.send.timeout")
    ∷ (codes "worker-stop-timeout", codes "runtime.stop.timeout")
    ∷ []

-- the flags that the package adds by itself
abbrev pub built_in : List Flag
built_in =
    record { name = codes "help"; kind = bool_flag }
    ∷ record { name = codes "version"; kind = bool_flag }
    ∷ []

abbrev pub visible : List Flag
visible = map (λ (s : FlagSpec). s.flag) root_flags ++ built_in

-- The context of `Before`: the command is the application's own, with the same flags.
abbrev pub root_cli : (FlagKind → Bytes → FlagValue) → (Bytes → FlagValue) → Cli FlagValue
root_cli get value = record {
  app_flags = visible;
  command_flags = visible;
  get = get;
  value = value;
}

abbrev pub root_options : Cli FlagValue → ParseOptions FlagValue
root_options cli = record {
  cli = some cli;
  cli_map = cli_map;
  defaults = [];
  env_prefix = [];
  file_name = [];
}

module _ {K C : Type 0} (koanf : Koanf K FlagValue C) (sources : Sources FlagValue) where
  -- `parseRootConfig`
  unfoldable pub parse_root_config : Cli FlagValue → Result Error C
  unfolding parse
  parse_root_config cli = parse koanf sources (root_options cli)

-- The logger's configuration: that of `zap`, with a level.
pub data LogFormat : Type 0 where
  production development : LogFormat

abbrev pub text_of : FlagValue → String
text_of (text s) = s
text_of _ = ""

-- `getLogFormatFromCLI`
unfoldable pub get_log_format : Cli FlagValue → String
get_log_format cli =
    let format = text_of (cli.get string_flag (codes "log-format")) in
    if str_eq format "" then "development" else format

-- `getLogLevelFromCLI`, for `zap.ParseAtomicLevel` and the level `info`
unfoldable pub get_log_level : {V : Type 0} → (String → Result Error V) → V → Cli FlagValue → V
get_log_level parse_level info cli =
    elim (parse_level (text_of (cli.get string_flag (codes "log-level")))) [
      | ok level ↦ level
      | err e ↦ info
      | panics ↦ info
    ]

module _ {V G : Type 0} (level : Cli FlagValue → V) (build : LogFormat → V → Result Error G) where
  -- `createLogger`, for the level that `getLogLevelFromCLI` gives
  unfoldable pub create_logger : Cli FlagValue → Result Error G
  unfolding get_log_format
  create_logger cli =
      let format = get_log_format cli in
      if str_eq format "production"
      then build production (level cli)
      else if str_eq format "development"
      then build development (level cli)
      else err (message "invalid log format")
