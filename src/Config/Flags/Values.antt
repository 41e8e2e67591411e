-- ===== src/Config/Flags/Values.antt =====
-- What util/cliflags/provider.go hands on of each flag.
use shimmy_wasm_go.Base.{
  Bytes, bytes_eq, bytes_eq→eq, bytes_eq_refl, List, [], ◌∷◌, ◌≡◌, refl, ap, ◌∙◌, inl, inr, Bool,
  true, false, ◌||◌, ◌&&◌, not, Option, none, some, arith, if◌then◌else◌, Bool-cases,
}
use shimmy_wasm_go.Exec.{Error, Result, ok, err, panics}
use shimmy_wasm_go.Config.Flags.{
  Entries, lookup, assign, Flag, Cli, get_flag_value, add_flags, flags, add_value, add_values,
  provider,
}

bytes_eq_sym : (s t : Bytes) → bytes_eq s t ≡ false → bytes_eq t s ≡ false
bytes_eq_sym s t h = elim (Bool-cases (bytes_eq t s)) [
  | inl e ↦ absurd (grind (arith, bytes_eq→eq t s e, bytes_eq_refl s))
  | inr e ↦ e
]

pub lookup-assign {ℓ} :
    {V : Type ℓ} (j k : Bytes) (v : V) (m : Entries V)
    → lookup j (assign k v m) ≡ (if bytes_eq k j then some v else lookup j m)
unfolding lookup assign
lookup-assign j k v [] = refl
lookup-assign j k v ((i, w) ∷ m) = elim (Bool-cases (bytes_eq i k)) [
  | inl e ↦ grind (arith, bytes_eq→eq i k e)
  | inr e ↦ elim (Bool-cases (bytes_eq k j)) [
    | inl d ↦ grind (arith, bytes_eq→eq k j d, lookup-assign j k v m)
    | inr d ↦ grind (arith, lookup-assign j k v m)
  ]
]

-- each key has one entry
abbrev pub IsUnique {ℓ} : {V : Type ℓ} → Entries V → Type ℓ
IsUnique [] = Unit
IsUnique ((k, v) ∷ m) = (lookup k m ≡ none) × IsUnique m

assign-IsUnique {ℓ} :
    {V : Type ℓ} (k : Bytes) (v : V) (m : Entries V) → IsUnique m → IsUnique (assign k v m)
unfolding assign lookup
assign-IsUnique k v [] u = (refl, tt)
assign-IsUnique k v ((i, w) ∷ m) u = elim (Bool-cases (bytes_eq i k)) [
  | inl e ↦ grind (arith, bytes_eq→eq i k e)
  | inr e ↦ grind (arith, lookup-assign i k v m, bytes_eq_sym i k e, assign-IsUnique k v m u.1)
]

add_flags-IsUnique :
    {V : Type 0} (cli : Cli V) (fs : List Flag) (m : Entries Flag)
    → IsUnique m
    → IsUnique (add_flags cli fs m)
unfolding add_flags
add_flags-IsUnique cli [] m u = u
add_flags-IsUnique cli (f ∷ fs) m u = add_flags-IsUnique cli fs _ (assign-IsUnique f.name f m u)

-- the last flag of the name
abbrev pub last_named : Bytes → List Flag → Option Flag → Option Flag
last_named n [] o = o
last_named n (f ∷ fs) o = last_named n fs (if bytes_eq f.name n then some f else o)

lookup-add_flags :
    {V : Type 0} (cli : Cli V) (n : Bytes) (fs : List Flag) (m : Entries Flag)
    → lookup n (add_flags cli fs m) ≡ last_named n fs (lookup n m)
unfolding add_flags
lookup-add_flags cli n [] m = refl
lookup-add_flags cli n (f ∷ fs) m =
    lookup-add_flags cli n fs (assign f.name f m)
    ∙ ap (last_named n fs) (lookup-assign n f.name f m)

-- No other flag of the map has the same key.
abbrev pub is_apart {ℓ} : {V : Type ℓ} → (Bytes → Bytes) → Bytes → Entries V → Bool
is_apart cb n [] = true
is_apart cb n ((j, v) ∷ m) = (bytes_eq j n || not (bytes_eq (cb j) (cb n))) && is_apart cb n m

abbrev pub value_of : {V : Type 0} → Result Error V → Option V
value_of (ok v) = some v
value_of (err e) = none
value_of panics = none

module _ {V : Type 0} (cli : Cli V) (cb : Bytes → Bytes) (n : Bytes) where
  lookup-add_value_ne :
      (j : Bytes) (r : Result Error V) (m : Entries V)
      → bytes_eq (cb j) (cb n) ≡ false
      → lookup (cb n) (add_value cli (cb j) r m) ≡ lookup (cb n) m
  lookup-add_value_ne j r m h = grind (arith, lookup-assign)

  lookup-add_value_eq :
      (j : Bytes) (r : Result Error V) (m : Entries V)
      → j ≡ n
      → lookup (cb n) m ≡ none
      → lookup (cb n) (add_value cli (cb j) r m) ≡ value_of r
  lookup-add_value_eq j r m h e = rw h (grind (arith, lookup-assign, bytes_eq_refl (cb n)))

  add_values-absent :
      (fs : Entries Flag) (m : Entries V)
      → lookup n fs ≡ none
      → is_apart cb n fs ≡ true
      → lookup (cb n) (add_values cli cb fs m) ≡ lookup (cb n) m
  unfolding add_values lookup
  add_values-absent [] m h a = refl
  add_values-absent ((j, f) ∷ fs) m h a =
      add_values-absent fs _ (ground arith) (ground arith)
      ∙ lookup-add_value_ne j (get_flag_value cli f) m (ground arith)

  add_values-present :
      (fs : Entries Flag) (f : Flag) (m : Entries V)
      → IsUnique fs
      → lookup n fs ≡ some f
      → is_apart cb n fs ≡ true
      → lookup (cb n) m ≡ none
      → lookup (cb n) (add_values cli cb fs m) ≡ value_of (get_flag_value cli f)
  unfolding add_values lookup
  add_values-present [] f m u h a e = cc
  add_values-present ((j, g) ∷ fs) f m u h a e = elim (Bool-cases (bytes_eq j n)) [
    | inl p ↦
        let same : j ≡ n = bytes_eq→eq j n p in
        let it : g ≡ f = ground arith in
        rw it (
          add_values-absent fs _ (rw same at u.0) (ground arith)
          ∙ lookup-add_value_eq j (get_flag_value cli f) m same e)
    | inr p ↦
        add_values-present fs f _ u.1 (ground arith) (ground arith)
          (lookup-add_value_ne j (get_flag_value cli g) m (ground arith) ∙ e)
  ]

  -- The configuration gets each flag's value under the flag's key: the command's flag of a name
  -- goes before the application's, a flag of another type than the eleven is left out, and of a
  -- duration it gets what the flag's field holds. No other flag may have the same key.
  pub provider-value :
      (f : Flag)
      → last_named n cli.command_flags (last_named n cli.app_flags none) ≡ some f
      → is_apart cb n (flags cli) ≡ true
      → lookup (cb n) (provider cli cb) ≡ value_of (get_flag_value cli f)
  unfolding provider flags lookup
  provider-value f h a =
      add_values-present (flags cli) f []
        (add_flags-IsUnique cli cli.command_flags _ (add_flags-IsUnique cli cli.app_flags [] tt))
        (lookup-add_flags cli n cli.command_flags _
          ∙ ap (last_named n cli.command_flags) (lookup-add_flags cli n cli.app_flags [])
          ∙ h)
        a refl
