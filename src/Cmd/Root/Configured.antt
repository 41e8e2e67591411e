-- ===== src/Cmd/Root/Configured.antt =====
-- The configuration that the flags of cmd/root.go give, by the tags `conf` of config/config.go and of
-- the structs that it holds.
use shimmy_wasm_go.Base.{String, Bytes, codes, List, [], Option, none, some, ◌≡◌, All}
use shimmy_wasm_go.Exec.{ok}
use shimmy_wasm_go.Json.{ℤ}
use shimmy_wasm_go.Config.Flags.{FlagKind, string_flag, string_slice_flag, int_flag}
use shimmy_wasm_go.Config.Models.{Config}
use shimmy_wasm_go.Config.Parse.{Koanf, Sources}
use shimmy_wasm_go.Config.Parse.Precedence.{Laws}
use shimmy_wasm_go.Cmd.Root.{FlagValue, text, texts, number, duration, root_cli, parse_root_config}
use shimmy_wasm_go.Cmd.Root.Settings.{settings, parse_root_config-settings}
use shimmy_wasm_go.Execution.Config.{io_interface, io_transport}

-- a slice, of which nil has no element
abbrev pub elements : Option (List String) → List String
elements none = []
elements (some xs) = xs

-- What `UnmarshalWithConf` says of a configuration that it has filled from a store: a field for
-- whose path the store has a value of its type holds that value. The path is made of the tags
-- `conf`, where a squashed struct adds none, and a field without that tag goes by its name in any
-- case of letters.
pub record Decoded {K : Type 0} (koanf : Koanf K FlagValue Config) (k : K) (c : Config)
    : Type 0 where
  pub log_level_lem :
      (x : String) → koanf.get (codes "log_level") k ≡ some (text x) → c.log_level ≡ x
  pub log_format_lem :
      (x : String) → koanf.get (codes "log_format") k ≡ some (text x) → c.log_format ≡ x
  pub auth_key_lem : (x : String) → koanf.get (codes "auth.key") k ≡ some (text x) → c.auth.key ≡ x
  pub interface_lem :
      (x : String)
      → koanf.get (codes "runtime.io.interface") k ≡ some (text x)
      → c.runtime.supervisor.io.interface ≡ io_interface x
  pub cmd_lem :
      (x : String)
      → koanf.get (codes "runtime.cmd") k ≡ some (text x)
      → c.runtime.supervisor.start_params.cmd ≡ x
  pub cwd_lem :
      (x : String)
      → koanf.get (codes "runtime.cwd") k ≡ some (text x)
      → c.runtime.supervisor.start_params.cwd ≡ x
  pub args_lem :
      (x : List String)
      → koanf.get (codes "runtime.arg") k ≡ some (texts x)
      → c.runtime.supervisor.start_params.args ≡ x
  pub env_lem :
      (x : List String)
      → koanf.get (codes "runtime.env") k ≡ some (texts x)
      → elements c.runtime.supervisor.start_params.env ≡ x
  pub max_workers_lem :
      (x : ℤ)
      → koanf.get (codes "runtime.max_workers") k ≡ some (number x)
      → c.runtime.max_workers ≡ x
  pub stop_timeout_lem :
      (x : ℤ)
      → koanf.get (codes "runtime.stop.timeout") k ≡ some (duration x)
      → c.runtime.supervisor.stop_params.timeout ≡ x
  pub send_timeout_lem :
      (x : ℤ)
      → koanf.get (codes "runtime.send.timeout") k ≡ some (duration x)
      → c.runtime.supervisor.send_params.timeout ≡ x
  pub transport_lem :
      (x : String)
      → koanf.get (codes "runtime.io.rpc.transport") k ≡ some (text x)
      → c.runtime.supervisor.io.rpc.transport ≡ io_transport x
  pub ipc_endpoint_lem :
      (x : String)
      → koanf.get (codes "runtime.io.rpc.ipc.endpoint") k ≡ some (text x)
      → c.runtime.supervisor.io.rpc.ipc_endpoint ≡ x
  pub http_url_lem :
      (x : String)
      → koanf.get (codes "runtime.io.rpc.http.url") k ≡ some (text x)
      → c.runtime.supervisor.io.rpc.http_url ≡ x
  pub ws_url_lem :
      (x : String)
      → koanf.get (codes "runtime.io.rpc.ws.url") k ≡ some (text x)
      → c.runtime.supervisor.io.rpc.ws_url ≡ x
  pub tcp_address_lem :
      (x : String)
      → koanf.get (codes "runtime.io.rpc.tcp.address") k ≡ some (text x)
      → c.runtime.supervisor.io.rpc.tcp_address ≡ x

-- What the flags are set to by the methods of `cli.Context`, and by the field `Value` of the flags
-- for durations.
pub record Given : Type 0 where
  pub text : Bytes → String
  pub texts : Bytes → List String
  pub number : Bytes → ℤ
  pub value : Bytes → ℤ
  pub rest : FlagKind → Bytes → FlagValue

abbrev pub get : Given → FlagKind → Bytes → FlagValue
get g string_flag name = text (g.text name)
get g string_slice_flag name = texts (g.texts name)
get g int_flag name = number (g.number name)
get g kind name = g.rest kind name

abbrev pub value : Given → Bytes → FlagValue
value g name = duration (g.value name)

-- the configuration that the flags describe, with the environment of the worker
abbrev pub described : Given → Option (List String) → Config
described g env = record {
  log_level = g.text (codes "log-level");
  log_format = g.text (codes "log-format");
  runtime = record {
    max_workers = g.number (codes "max-workers");
    supervisor = record {
      io = record {
        interface = io_interface (g.text (codes "interface"));
        rpc = record {
          transport = io_transport (g.text (codes "rpc-transport"));
          http_url = g.text (codes "rpc-transport-http-url");
          ipc_endpoint = g.text (codes "rpc-transport-ipc-endpoint");
          ws_url = g.text (codes "rpc-transport-ws-url");
          tcp_address = g.text (codes "rpc-transport-tcp-address");
        };
      };
      start_params = record {
        cmd = g.text (codes "command");
        cwd = g.text (codes "cwd");
        args = g.texts (codes "arg");
        env = env;
      };
      stop_params = record { timeout = g.value (codes "worker-stop-timeout") };
      send_params = record { timeout = g.value (codes "worker-send-timeout") };
    };
  };
  auth = record { key = g.text (codes "auth-key") };
}

module _ {K : Type 0} (koanf : Koanf K FlagValue Config) where
  -- the path between the configuration and the one that its settings describe, field by field
  filled :
      (g : Given) (k : K) (c : Config)
      → Decoded koanf k c
      → All (λ s. koanf.get s.0 k ≡ some s.1) (settings (get g) (value g))
      → (env : Option (List String)) × (elements env ≡ g.texts (codes "env"))
        × (c ≡ described g env)
  filled g k c d
        (
          log_level,
          (
            log_format,
            (
              auth_key,
              (
                interface,
                (
                  cmd,
                  (
                    cwd,
                    (
                      args,
                      (
                        env,
                        (
                          max_workers,
                          (
                            stop_timeout,
                            (
                              send_timeout,
                              (transport, (ipc_endpoint, (http_url, (ws_url, (tcp_address, _))))),
                            ),
                          ),
                        ),
                      ),
                    ),
                  ),
                ),
              ),
            ),
          ),
        ) =
      (
        c.runtime.supervisor.start_params.env,
        d.env_lem _ env,
        λ i. record {
          log_level = d.log_level_lem _ log_level i;
          log_format = d.log_format_lem _ log_format i;
          runtime = record {
            max_workers = d.max_workers_lem _ max_workers i;
            supervisor = record {
              io = record {
                interface = d.interface_lem _ interface i;
                rpc = record {
                  transport = d.transport_lem _ transport i;
                  ipc_endpoint = d.ipc_endpoint_lem _ ipc_endpoint i;
                  http_url = d.http_url_lem _ http_url i;
                  ws_url = d.ws_url_lem _ ws_url i;
                  tcp_address = d.tcp_address_lem _ tcp_address i;
                };
              };
              start_params = record {
                cmd = d.cmd_lem _ cmd i;
                cwd = d.cwd_lem _ cwd i;
                args = d.args_lem _ args i;
                env = c.runtime.supervisor.start_params.env;
              };
              stop_params = record { timeout = d.stop_timeout_lem _ stop_timeout i };
              send_params = record { timeout = d.send_timeout_lem _ send_timeout i };
            };
          };
          auth = record { key = d.auth_key_lem _ auth_key i };
        },
      )

module _ {K : Type 0} (koanf : Koanf K FlagValue Config) (laws : Laws koanf)
    (decoding : (k : K) (c : Config) → koanf.unmarshal k ≡ ok c → Decoded koanf k c)
    (sources : Sources FlagValue) where
  -- If the configuration is parsed, it is the one that the flags describe, whatever the environment
  -- has for its settings: each flag of `cliMap` reaches the field that is meant.
  pub parse_root_config-described :
      (g : Given) (c : Config)
      → parse_root_config koanf sources (root_cli (get g) (value g)) ≡ ok c
      → (env : Option (List String)) × (elements env ≡ g.texts (codes "env"))
        × (c ≡ described g env)
  parse_root_config-described g c q =
      let found = parse_root_config-settings koanf laws sources (get g) (value g) c q in
      filled koanf g found.0 c (decoding found.0 c found.1) found.2
