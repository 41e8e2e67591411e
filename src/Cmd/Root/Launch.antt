-- ===== src/Cmd/Root/Launch.antt =====
-- From the command line to the dispatcher: cmd/root.go, internal/execution/dispatcher.go.
use shimmy_wasm_go.Base.{
  ℕ, String, codes, List, [], Option, none, ◌≡◌, ◌∙◌, ap, refl, true, inl, inr, str_eq, eq_iff,
  arith, Bool-cases, if◌then◌else◌,
}
use shimmy_wasm_go.Exec.{Error, Result, ok}
use shimmy_wasm_go.Json.{ℤ}
use shimmy_wasm_go.Config.Models.{Config}
use shimmy_wasm_go.Config.Parse.{Koanf, Sources}
use shimmy_wasm_go.Config.Parse.Precedence.{Laws}
use shimmy_wasm_go.Cmd.Root.{FlagValue, root_cli, parse_root_config}
use shimmy_wasm_go.Cmd.Root.Configured.{
  Given, get, value, described, elements, Decoded, parse_root_config-described,
}
use shimmy_wasm_go.Execution.Dispatcher.Dedicated.{new_dedicated_dispatcher, create_supervisor}
use shimmy_wasm_go.Execution.Dispatcher.Pooled.{
  Dispatcher, max_size, create_pool, new_pooled_dispatcher,
}
use shimmy_wasm_go.Execution.Choice.{
  Makers, AnyDispatcher, wasm_dispatcher, dedicated_dispatcher, pooled_dispatcher, made,
  new_dispatcher,
}
use shimmy_wasm_go.Execution.Config.{SupervisorConfig, PooledConfig}

-- What the flags ask for. The dedicated dispatcher has a supervisor that keeps its worker; the one
-- of a pool gets the whole configuration.
abbrev pub launched :
    {W E P : Type 0}
    → Makers W E P
    → Given
    → Option (List String)
    → Result Error (AnyDispatcher W E P)
launched makers g env =
    if str_eq (g.text (codes "interface")) "wasm"
    then made wasm_dispatcher (
        makers.start_wasm record {
          module_path = g.text (codes "command");
          max_instances = g.number (codes "max-workers");
          timeout = g.value (codes "worker-send-timeout");
        })
    else if str_eq (g.text (codes "interface")) "rpc"
    then ok (
        dedicated_dispatcher
          record { persistent = true; worker_ref = none; env = makers.env; trace = [] })
    else made (λ q. pooled_dispatcher record { pool = q; uses = []; pending = [] })
        (makers.new_pool (max_size makers.cpus (g.number (codes "max-workers")))
          (described g env).runtime.supervisor)

made_pooled :
    {P B : Type 0} (f : Dispatcher P → B) (new_pool : ℤ → SupervisorConfig → Result Error P)
    (cpus : ℕ) (config : PooledConfig)
    → made f (new_pooled_dispatcher new_pool cpus config)
      ≡ made
          (λ q. f (record { pool = q; uses = []; pending = [] }))
          (new_pool (max_size cpus config.max_workers) config.supervisor)
unfolding new_pooled_dispatcher create_pool
made_pooled f new_pool cpus config = ground arith

new_dispatcher-described :
    {W E P : Type 0} (makers : Makers W E P) (g : Given) (env : Option (List String))
    → new_dispatcher makers (described g env).runtime ≡ launched makers g env
unfolding new_dispatcher new_dedicated_dispatcher create_supervisor
new_dispatcher-described makers g env =
    let s = g.text (codes "interface") in
    elim (Bool-cases (str_eq s "wasm")) [
      | inl w ↦ rw ((eq_iff s "wasm").0 w) refl
      | inr w ↦ elim (Bool-cases (str_eq s "rpc")) [
        | inl r ↦ rw ((eq_iff s "rpc").0 r) refl
        | inr r ↦ elim (Bool-cases (str_eq s "file")) [
          | inl f ↦ rw (w, r, f) (search made_pooled)
          | inr f ↦ rw (w, r, f) (search made_pooled)
        ]
      ]
    ]

module _ {K : Type 0} (koanf : Koanf K FlagValue Config) (laws : Laws koanf)
    (decoding : (k : K) (c : Config) → koanf.unmarshal k ≡ ok c → Decoded koanf k c)
    (sources : Sources FlagValue) where
  -- If the configuration is parsed, it is the one that the flags describe, whatever the environment
  -- has for its settings, and `NewDispatcher` makes of it what the flag `interface` asks for: with
  -- `wasm` the dispatcher of WebAssembly, for the module that the flag `command` names and as many
  -- instances as `max-workers`; with `rpc` a dedicated dispatcher, whose supervisor keeps its worker
  -- and has none yet; with anything else a pooled one, whose pool has the size that `max-workers`
  -- gives. The timeouts are what the flags' fields `Value` hold.
  pub parse_root_config-launched :
      {W E P : Type 0} (makers : Makers W E P) (g : Given) (c : Config)
      → parse_root_config koanf sources (root_cli (get g) (value g)) ≡ ok c
      → (env : Option (List String)) × (elements env ≡ g.texts (codes "env"))
        × (c ≡ described g env)
        × (new_dispatcher makers c.runtime ≡ launched makers g env)
  parse_root_config-launched makers g c q =
      let found = parse_root_config-described koanf laws decoding sources g c q in
      let made_of = ap (λ (x : Config). new_dispatcher makers x.runtime) found.2 in
      (found.0, found.1, found.2, made_of ∙ new_dispatcher-described makers g found.0)
