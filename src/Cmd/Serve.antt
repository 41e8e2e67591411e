-- ===== src/Cmd/Serve.antt =====
-- cmd/serve.go, lambda.go and run.go: the flags of the commands, and the configurations that
-- `serveAction` and `lambdaAction` parse from them.
use shimmy_wasm_go.Base.{
  ℕ, Bytes, codes, List, [], ◌∷◌, ◌++◌, map, false, some, ◌≡◌, refl, true, All,
}
use shimmy_wasm_go.Exec.{Error, Result, ok}
use shimmy_wasm_go.Json.{pos}
use shimmy_wasm_go.Config.Flags.{
  Entries, lookup, Flag, FlagKind, string_flag, int_flag, bool_flag, Cli, provider,
}
use shimmy_wasm_go.Config.Parse.{Koanf, Sources, ParseOptions, parse, transform_flag}
use shimmy_wasm_go.Config.Parse.Precedence.{Laws, is_clear, parse-cli}
use shimmy_wasm_go.Cmd.Root.{FlagValue, text, number, switch, FlagSpec, spec, visible}

abbrev pub serve_flags : List FlagSpec
serve_flags =
    spec string_flag (codes "host") (codes "H" ∷ []) (text "0.0.0.0") (codes "HTTP_HOST")
    ∷ spec int_flag (codes "port") (codes "P" ∷ []) (number (pos 8080)) (codes "HTTP_PORT")
    ∷ spec bool_flag (codes "h2c") [] (switch false) (codes "HTTP_H2C")
    ∷ []

abbrev pub lambda_flags : List FlagSpec
lambda_flags =
    spec string_flag (codes "lambda-proxy-source") [] (text "API_GW_V2")
      (codes "LAMBDA_PROXY_SOURCE")
    ∷ []

-- `init` gives `run` the flags of both commands.
abbrev pub run_flags : List FlagSpec
run_flags = serve_flags ++ lambda_flags

abbrev flags_of : List FlagSpec → List Flag
flags_of fs =
    map (λ (s : FlagSpec). s.flag) fs ++ record { name = codes "help"; kind = bool_flag } ∷ []

-- the context of the command `run`
abbrev pub run_cli : (FlagKind → Bytes → FlagValue) → (Bytes → FlagValue) → Cli FlagValue
run_cli get value = record {
  app_flags = visible;
  command_flags = flags_of run_flags;
  get = get;
  value = value;
}

abbrev pub mode_options : Cli FlagValue → ParseOptions FlagValue
mode_options cli = record {
  cli = some cli;
  cli_map = [];
  defaults = [];
  env_prefix = [];
  file_name = [];
}

module _ {K C : Type 0} (koanf : Koanf K FlagValue C) (sources : Sources FlagValue) where
  -- `conf.Parse` of `serveAction` and `lambdaAction`
  unfoldable pub parse_mode : Cli FlagValue → Result Error C
  unfolding parse
  parse_mode cli = parse koanf sources (mode_options cli)

module _ (get : FlagKind → Bytes → FlagValue) (value : Bytes → FlagValue) where
  -- the settings of the server and of Lambda
  abbrev pub mode_settings : Entries FlagValue
  mode_settings =
      (codes "host", get string_flag (codes "host"))
      ∷ (codes "port", get int_flag (codes "port"))
      ∷ (codes "h2c", get bool_flag (codes "h2c"))
      ∷ (codes "lambda_proxy_source", get string_flag (codes "lambda-proxy-source"))
      ∷ []

  abbrev layer : Entries FlagValue
  layer = provider (run_cli get value) (transform_flag [])

  settings_given :
      All (λ s. (is_clear s.0 layer ≡ true) × (lookup s.0 layer ≡ some s.1)) mode_settings
  unfolding provider transform_flag lookup shimmy_wasm_go.Base.has_prefix
  settings_given = ((refl, refl), ((refl, refl), ((refl, refl), ((refl, refl), tt))))

module _ {K C : Type 0} (koanf : Koanf K FlagValue C) (laws : Laws koanf)
    (sources : Sources FlagValue) where
  -- Under the command `run` the settings of the server and of Lambda have what their flags are set
  -- to, whatever the environment has for the settings themselves.
  pub parse_mode-settings :
      (get : FlagKind → Bytes → FlagValue) (value : Bytes → FlagValue) (c : C)
      → parse_mode koanf sources (run_cli get value) ≡ ok c
      → (k : K) × (koanf.unmarshal k ≡ ok c)
        × All (λ s. koanf.get s.0 k ≡ some s.1) (mode_settings get value)
  unfolding parse_mode
  parse_mode-settings get value c q =
      parse-cli koanf laws sources (mode_options (run_cli get value)) (mode_settings get value) c
        (settings_given get value) q
