-- ===== src/Config/Flags.antt =====
-- util/cliflags/provider.go. What the flags are set to is read by the command line package, a
-- parameter here.
pub mod Values
use shimmy_wasm_go.Base.{Bytes, bytes_eq, List, [], ◌∷◌, ◌++◌, Option, none, some, if◌then◌else◌}
use shimmy_wasm_go.Exec.{Error, message, Result, ok, err, panics}

-- A Go map with texts for keys, as entries of which each key has one.
abbrev pub Entries {ℓ} : Type ℓ → Type ℓ
Entries V = List (Bytes × V)

unfoldable pub lookup {ℓ} : {V : Type ℓ} → Bytes → Entries V → Option V
unfolding bytes_eq
lookup k [] = none
lookup k ((j, v) ∷ m) = if bytes_eq j k then some v else lookup k m

-- `m[k] = v`
unfoldable pub assign {ℓ} : {V : Type ℓ} → Bytes → V → Entries V → Entries V
unfolding bytes_eq
assign k v [] = (k, v) ∷ []
assign k v ((j, w) ∷ m) = if bytes_eq j k then (k, v) ∷ m else (j, w) ∷ assign k v m

-- The dynamic types of a `cli.Flag`; the last is any other.
pub data FlagKind : Type 0 where
  string_flag string_slice_flag path_flag int_flag int_slice_flag int64_flag : FlagKind
  int64_slice_flag bool_flag float64_flag float64_slice_flag duration_flag other_flag : FlagKind

-- A flag by the first of its names.
pub record Flag : Type 0 where
  pub name : Bytes
  pub kind : FlagKind

-- `cli.Context`: the visible flags of the application and of the command, the methods `String`,
-- `Int` and so on, which say what a flag is set to, and the field `Value` of a flag.
pub record Cli (V : Type 0) : Type 0 where
  pub app_flags : List Flag
  pub command_flags : List Flag
  pub get : FlagKind → Bytes → V
  pub value : Bytes → V

module _ {V : Type 0} (cli : Cli V) where
  -- `getFlagValue`
  unfoldable pub get_flag_value : Flag → Result Error V
  get_flag_value f = elim f.kind [
    | string_flag ↦ ok (cli.get string_flag f.name)
    | string_slice_flag ↦ ok (cli.get string_slice_flag f.name)
    | path_flag ↦ ok (cli.get path_flag f.name)
    | int_flag ↦ ok (cli.get int_flag f.name)
    | int_slice_flag ↦ ok (cli.get int_slice_flag f.name)
    | int64_flag ↦ ok (cli.get int64_flag f.name)
    | int64_slice_flag ↦ ok (cli.get int64_slice_flag f.name)
    | bool_flag ↦ ok (cli.get bool_flag f.name)
    | float64_flag ↦ ok (cli.get float64_flag f.name)
    | float64_slice_flag ↦ ok (cli.get float64_slice_flag f.name)
    | duration_flag ↦ ok (cli.value f.name)
    | other_flag ↦ err (message "unsupported flag type")
  ]

  -- the loops over the flags of the application and of the command
  unfoldable pub add_flags : List Flag → Entries Flag → Entries Flag
  unfolding assign
  add_flags [] m = m
  add_flags (f ∷ fs) m = add_flags fs (assign f.name f m)

  unfoldable pub flags : Entries Flag
  unfolding add_flags
  flags = add_flags cli.command_flags (add_flags cli.app_flags [])

  abbrev add_value : Bytes → Result Error V → Entries V → Entries V
  add_value k (ok v) m = assign k v m
  add_value k (err e) m = m
  add_value k panics m = m

  -- the loop over the map of the flags
  unfoldable pub add_values : (Bytes → Bytes) → Entries Flag → Entries V → Entries V
  unfolding get_flag_value assign
  add_values cb [] m = m
  add_values cb ((name, f) ∷ fs) m = add_values cb fs (add_value (cb name) (get_flag_value f) m)

  -- `Provider`, by the paths of the values: `maps.Unflatten` nests them.
  unfoldable pub provider : (Bytes → Bytes) → Entries V
  unfolding add_values flags
  provider cb = add_values cb flags []
