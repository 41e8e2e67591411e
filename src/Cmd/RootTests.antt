-- ===== src/Cmd/RootTests.antt =====
-- From a command line to a dispatcher on concrete flags.
use shimmy_wasm_go.Base.{
  ℕ, none, String, Bytes, codes, bytes_eq, List, [], ◌∷◌, ◌++◌, Option, some, ◌≡◌, refl, ap, true,
  if◌then◌else◌, str_eq,
}
use shimmy_wasm_go.Exec.{Error, message, Result, ok, err}
use shimmy_wasm_go.Json.{ℤ, pos}
use shimmy_wasm_go.Config.Flags.{Entries, lookup, provider}
use shimmy_wasm_go.Config.Models.{Config}
use shimmy_wasm_go.Config.Parse.{Koanf, Sources, transform_flag}
use shimmy_wasm_go.Config.Parse.Precedence.{Laws}
use shimmy_wasm_go.Cmd.Root.{
  FlagValue, text, texts, number, duration, switch, root_cli, parse_root_config,
}
use shimmy_wasm_go.Cmd.Root.Configured.{Given, get, value, described, elements, Decoded}
use shimmy_wasm_go.Cmd.Root.Launch.{launched, parse_root_config-launched}
use shimmy_wasm_go.Cmd.Tests.{store-Laws}
use shimmy_wasm_go.Execution.Config.{io_interface, io_transport}
use shimmy_wasm_go.Execution.Choice.{Makers, wasm_dispatcher, pooled_dispatcher, new_dispatcher}

-- what a field holds whose path has no value of its type
abbrev text_or : Option FlagValue → String
text_or (some (text s)) = s
text_or _ = ""

abbrev texts_or : Option FlagValue → List String
texts_or (some (texts xs)) = xs
texts_or _ = []

abbrev number_or : Option FlagValue → ℤ
number_or (some (number n)) = n
number_or _ = pos 0

abbrev duration_or : Option FlagValue → ℤ
duration_or (some (duration n)) = n
duration_or _ = pos 0

abbrev filled : Entries FlagValue → Config
filled k = record {
  log_level = text_or (lookup (codes "log_level") k);
  log_format = text_or (lookup (codes "log_format") k);
  runtime = record {
    max_workers = number_or (lookup (codes "runtime.max_workers") k);
    supervisor = record {
      io = record {
        interface = io_interface (text_or (lookup (codes "runtime.io.interface") k));
        rpc = record {
          transport = io_transport (text_or (lookup (codes "runtime.io.rpc.transport") k));
          http_url = text_or (lookup (codes "runtime.io.rpc.http.url") k);
          ipc_endpoint = text_or (lookup (codes "runtime.io.rpc.ipc.endpoint") k);
          ws_url = text_or (lookup (codes "runtime.io.rpc.ws.url") k);
          tcp_address = text_or (lookup (codes "runtime.io.rpc.tcp.address") k);
        };
      };
      start_params = record {
        cmd = text_or (lookup (codes "runtime.cmd") k);
        cwd = text_or (lookup (codes "runtime.cwd") k);
        args = texts_or (lookup (codes "runtime.arg") k);
        env = some (texts_or (lookup (codes "runtime.env") k));
      };
      stop_params = record { timeout = duration_or (lookup (codes "runtime.stop.timeout") k) };
      send_params = record { timeout = duration_or (lookup (codes "runtime.send.timeout") k) };
    };
  };
  auth = record { key = text_or (lookup (codes "auth.key") k) };
}

abbrev koanf : Koanf (Entries FlagValue) FlagValue Config
koanf = record {
  new = [];
  load = λ m k. m ++ k;
  get = λ p k. lookup p k;
  unmarshal = λ k. ok (filled k);
}

koanf-Laws : Laws koanf
koanf-Laws = record { new_lem = store-Laws.new_lem; load_lem = store-Laws.load_lem }

filled-Decoded : (k : Entries FlagValue) → Decoded koanf k (filled k)
filled-Decoded k = record {
  log_level_lem = λ x p. ap text_or p;
  log_format_lem = λ x p. ap text_or p;
  auth_key_lem = λ x p. ap text_or p;
  interface_lem = λ x p. ap (λ o. io_interface (text_or o)) p;
  cmd_lem = λ x p. ap text_or p;
  cwd_lem = λ x p. ap text_or p;
  args_lem = λ x p. ap texts_or p;
  env_lem = λ x p. ap texts_or p;
  max_workers_lem = λ x p. ap number_or p;
  stop_timeout_lem = λ x p. ap duration_or p;
  send_timeout_lem = λ x p. ap duration_or p;
  transport_lem = λ x p. ap (λ o. io_transport (text_or o)) p;
  ipc_endpoint_lem = λ x p. ap text_or p;
  http_url_lem = λ x p. ap text_or p;
  ws_url_lem = λ x p. ap text_or p;
  tcp_address_lem = λ x p. ap text_or p;
}

abbrev config_or : Config → Result Error Config → Config
config_or d (ok c) = c
config_or d _ = d

koanf-Decoded : (k : Entries FlagValue) (c : Config) → koanf.unmarshal k ≡ ok c → Decoded koanf k c
koanf-Decoded k c p = rw (ap (config_or (filled k)) p) at (filled-Decoded k)

abbrev sources : Sources FlagValue
sources = record {
  file = λ name. err (message "no file");
  env = λ prefix cb. ok ((cb (codes "RUNTIME__CMD"), text "other.wasm") ∷ []);
}

-- `--interface wasm --command f.wasm --max-workers 4`
abbrev given_text : Bytes → String
given_text name =
    if bytes_eq name (codes "interface")
    then "wasm"
    else if bytes_eq name (codes "command")
    then "f.wasm"
    else ""

abbrev flags : Given
flags = record {
  text = given_text;
  texts = λ name. [];
  number = λ name. pos 4;
  value = λ name. pos 30;
  rest = λ kind name. switch true;
}

-- a WebAssembly module starts if it is the one of the flags; a pool is its size
abbrev makers : Makers ℕ ℕ ℤ
makers = record {
  start_wasm = λ c. if str_eq c.module_path "f.wasm" then ok 7 else err (message "no module");
  env = 0;
  cpus = 8;
  new_pool = λ size config. ok size;
}

abbrev parsed : Config
parsed = described flags (some [])

parsed_run : parse_root_config koanf sources (root_cli (get flags) (value flags)) ≡ ok parsed
unfolding parse_root_config lookup provider transform_flag shimmy_wasm_go.Config.transform_env
parsed_run = refl

-- `--interface file --max-workers 4`: a pool of four
filed_launched :
    launched makers (record flags { text = λ name. "file" }) none
    ≡ ok (pooled_dispatcher record { pool = pos 4; uses = []; pending = [] })
unfolding shimmy_wasm_go.Execution.Dispatcher.Pooled.max_size
filed_launched = refl

-- The dispatcher of WebAssembly is made, from the command of the flags.
wasm_launched : launched makers flags (some []) ≡ ok (wasm_dispatcher 7)
unfolding bytes_eq
wasm_launched = refl

parse_root_config-launched_example :
    (env : Option (List String)) × (elements env ≡ [])
    × (parsed ≡ described flags env)
    × (new_dispatcher makers parsed.runtime ≡ launched makers flags env)
parse_root_config-launched_example =
    parse_root_config-launched koanf koanf-Laws koanf-Decoded sources makers flags parsed parsed_run
