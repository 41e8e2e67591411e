-- ===== src/Config/Parse.antt =====
-- `Parse` of util/conf/parse.go. The configuration store and the readers of a file and of the
-- environment are those of koanf, parameters here.
pub mod Precedence
use shimmy_wasm_go.Base.{
  Bytes, codes, bytes_eq, List, [], ◌∷◌, ◌++◌, Bool, true, false, ◌&&◌, ◌||◌, not, Option, none,
  some, map, to_lower, has_prefix, ℕ, ◌==◌, if◌then◌else◌,
}
use shimmy_wasm_go.Exec.{Error, wrap, Result, ok, err, panics}
use shimmy_wasm_go.Config.{transform_env}
use shimmy_wasm_go.Config.Flags.{Entries, lookup, Cli, provider}

-- `koanf.Koanf`: `New`, `Load` of a map, of which the paths are given, `Get`, and
-- `UnmarshalWithConf`
pub record Koanf (K V C : Type 0) : Type 0 where
  pub new : K
  pub load : Entries V → K → K
  pub get : Bytes → K → Option V
  pub unmarshal : K → Result Error C

-- What the providers of koanf read: of a JSON file, and of the variables with a prefix, whose names
-- a callback turns into paths.
pub record Sources (V : Type 0) : Type 0 where
  pub file : Bytes → Result Error (Entries V)
  pub env : Bytes → (Bytes → Bytes) → Result Error (Entries V)

pub record ParseOptions (V : Type 0) : Type 0 where
  pub cli : Option (Cli V)
  pub cli_map : Entries Bytes
  pub defaults : Entries V
  pub env_prefix : Bytes
  pub file_name : Bytes

-- `strings.ReplaceAll(strings.ToLower(s), "-", "_")`
abbrev dash : ℕ → ℕ
dash c = if c == b'-' then b'_' else c

-- `transformFlag`; a nil map has no entry
unfoldable pub transform_flag : Entries Bytes → Bytes → Bytes
unfolding lookup to_lower
transform_flag cli_map s = elim (lookup s cli_map) [
  | some name ↦ name
  | none ↦ map dash (map to_lower s)
]

module _ {K V C : Type 0} (koanf : Koanf K V C) where
  -- a layer that is loaded, or the error of reading it
  unfoldable pub load_layer : Bytes → Result Error (Entries V) → K → Result Error K
  load_layer what (ok m) k = ok (koanf.load m k)
  load_layer what (err e) k = err (wrap "error parsing" e)
  load_layer what panics k = panics

  infixl 5 ◌>>=◌
  abbrev ◌>>=◌ : Result Error K → (K → Result Error K) → Result Error K
  ok k >>= f = f k
  err e >>= f = err e
  panics >>= f = panics

  module _ (sources : Sources V) (opt : ParseOptions V) where
    unfoldable pub load_file : K → Result Error K
    unfolding load_layer
    load_file k = elim opt.file_name [
      | [] ↦ ok k
      | c ∷ s ↦ load_layer (codes "file") (sources.file opt.file_name) k
    ]

    unfoldable pub load_env : K → Result Error K
    unfolding load_layer transform_env
    load_env k =
        load_layer (codes "env vars")
          (sources.env opt.env_prefix (λ s. transform_env s opt.env_prefix)) k

    unfoldable pub load_cli : K → Result Error K
    unfolding load_layer provider transform_flag
    load_cli k = elim opt.cli [
      | none ↦ ok k
      | some cli ↦ load_layer (codes "cli flags") (ok (provider cli (transform_flag opt.cli_map))) k
    ]

    -- the store from which the configuration is read
    unfoldable pub load_all : Result Error K
    unfolding load_file load_env load_cli
    load_all = do a ← load_file (koanf.load opt.defaults koanf.new); b ← load_env a; load_cli b

    unfoldable pub parse : Result Error C
    unfolding load_all
    parse = elim load_all [
      | err e ↦ err e
      | panics ↦ panics
      | ok k ↦ elim (koanf.unmarshal k) [
        | err e ↦ err (wrap "error unmarshalling config" e)
        | panics ↦ panics
        | ok c ↦ ok c
      ]
    ]
