-- ===== src/Cmd/Root/Settings.antt =====
-- Which settings the flags of cmd/root.go give.
use shimmy_wasm_go.Base.{Bytes, codes, List, [], ◌∷◌, ◌≡◌, refl, true, some, All, arith}
use shimmy_wasm_go.Exec.{ok}
use shimmy_wasm_go.Config.Flags.{
  Entries, lookup, FlagKind, string_flag, string_slice_flag, int_flag, provider,
}
use shimmy_wasm_go.Config.Parse.{Koanf, Sources, transform_flag}
use shimmy_wasm_go.Config.Parse.Precedence.{Laws, is_clear, parse-cli}
use shimmy_wasm_go.Cmd.Root.{FlagValue, root_cli, root_options, parse_root_config, cli_map}

module _ (get : FlagKind → Bytes → FlagValue) (value : Bytes → FlagValue) where
  -- the settings, with what each one is set to
  abbrev pub settings : Entries FlagValue
  settings =
      (codes "log_level", get string_flag (codes "log-level"))
      ∷ (codes "log_format", get string_flag (codes "log-format"))
      ∷ (codes "auth.key", get string_flag (codes "auth-key"))
      ∷ (codes "runtime.io.interface", get string_flag (codes "interface"))
      ∷ (codes "runtime.cmd", get string_flag (codes "command"))
      ∷ (codes "runtime.cwd", get string_flag (codes "cwd"))
      ∷ (codes "runtime.arg", get string_slice_flag (codes "arg"))
      ∷ (codes "runtime.env", get string_slice_flag (codes "env"))
      ∷ (codes "runtime.max_workers", get int_flag (codes "max-workers"))
      ∷ (codes "runtime.stop.timeout", value (codes "worker-stop-timeout"))
      ∷ (codes "runtime.send.timeout", value (codes "worker-send-timeout"))
      ∷ (codes "runtime.io.rpc.transport", get string_flag (codes "rpc-transport"))
      ∷ (codes "runtime.io.rpc.ipc.endpoint", get string_flag (codes "rpc-transport-ipc-endpoint"))
      ∷ (codes "runtime.io.rpc.http.url", get string_flag (codes "rpc-transport-http-url"))
      ∷ (codes "runtime.io.rpc.ws.url", get string_flag (codes "rpc-transport-ws-url"))
      ∷ (codes "runtime.io.rpc.tcp.address", get string_flag (codes "rpc-transport-tcp-address"))
      ∷ []

  abbrev layer : Entries FlagValue
  layer = provider (root_cli get value) (transform_flag cli_map)

  settings_given : All (λ s. (is_clear s.0 layer ≡ true) × (lookup s.0 layer ≡ some s.1)) settings
  unfolding provider transform_flag lookup shimmy_wasm_go.Base.has_prefix
  settings_given = (
    (refl, refl),
    (
      (refl, refl),
      (
        (refl, refl),
        (
          (refl, refl),
          (
            (refl, refl),
            (
              (refl, refl),
              (
                (refl, refl),
                (
                  (refl, refl),
                  (
                    (refl, refl),
                    (
                      (refl, refl),
                      (
                        (refl, refl),
                        (
                          (refl, refl),
                          ((refl, refl), ((refl, refl), ((refl, refl), ((refl, refl), tt)))),
                        ),
                      ),
                    ),
                  ),
                ),
              ),
            ),
          ),
        ),
      ),
    ),
  )

module _ {K C : Type 0} (koanf : Koanf K FlagValue C) (laws : Laws koanf)
    (sources : Sources FlagValue) where
  -- If the configuration is parsed, each of its settings has what the flag is set to, whatever the
  -- environment has for the setting itself; but of the two timeouts it has what the flag's field
  -- `Value` holds, which is its default or what its variable sets and nothing that the command line
  -- does.
  pub parse_root_config-settings :
      (get : FlagKind → Bytes → FlagValue) (value : Bytes → FlagValue) (c : C)
      → parse_root_config koanf sources (root_cli get value) ≡ ok c
      → (k : K) × (koanf.unmarshal k ≡ ok c)
        × All (λ s. koanf.get s.0 k ≡ some s.1) (settings get value)
  unfolding parse_root_config
  parse_root_config-settings get value c q =
      parse-cli koanf laws sources (root_options (root_cli get value)) (settings get value) c
        (settings_given get value) q
