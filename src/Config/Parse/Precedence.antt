-- ===== src/Config/Parse/Precedence.antt =====
-- Which source a setting comes from.
use shimmy_wasm_go.Base.{
  Bytes, [], ◌∷◌, ◌++◌, ◌≡◌, ◌∙◌, inl, inr, Bool, true, ◌&&◌, ◌||◌, not, Option, none, some,
  has_prefix, arith, All, Option-cases, List-cases, ap,
}
use shimmy_wasm_go.Exec.{Error, Result, ok, Result-cases}
use shimmy_wasm_go.Config.{transform_env}
use shimmy_wasm_go.Config.Flags.{Entries, lookup, provider}
use shimmy_wasm_go.Config.Parse.{
  Koanf, Sources, ParseOptions, transform_flag, load_layer, load_file, load_env, load_cli, load_all,
  parse,
}

-- one path leads through the other
abbrev pub nested : Bytes → Bytes → Bool
nested p q = has_prefix (p ++ b'.' ∷ []) q || has_prefix (q ++ b'.' ∷ []) p

-- Each path of the map is `p` or lies beside it.
abbrev pub is_clear : {V : Type 0} → Bytes → Entries V → Bool
is_clear p [] = true
is_clear p ((q, v) ∷ m) = not (nested p q) && is_clear p m

abbrev pub or_else : {V : Type 0} → Option V → Option V → Option V
or_else none o = o
or_else (some v) o = some v

-- What koanf says of itself: a new store is empty, and a map that is loaded overrides the paths that
-- it has and leaves those beside them.
pub record Laws {K V C : Type 0} (koanf : Koanf K V C) : Type 0 where
  pub new_lem : (p : Bytes) → koanf.get p koanf.new ≡ none
  pub load_lem :
      (p : Bytes) (m : Entries V) (k : K)
      → is_clear p m ≡ true
      → koanf.get p (koanf.load m k) ≡ or_else (lookup p m) (koanf.get p k)

module _ {K V C : Type 0} (koanf : Koanf K V C) (laws : Laws koanf) (sources : Sources V)
    (opt : ParseOptions V) where
  -- the entries of each source
  abbrev pub file_layer : Result Error (Entries V)
  file_layer = elim opt.file_name [ [] ↦ ok [] | c ∷ s ↦ sources.file opt.file_name ]

  abbrev pub env_layer : Result Error (Entries V)
  env_layer = sources.env opt.env_prefix (λ s. transform_env s opt.env_prefix)

  abbrev pub cli_layer : Entries V
  cli_layer = elim opt.cli [ none ↦ [] | some cli ↦ provider cli (transform_flag opt.cli_map) ]

  load_file-layer :
      (f : Entries V) (k : K)
      → file_layer ≡ ok f
      → (b : K) × (load_file koanf sources opt k ≡ ok b)
        × ((p : Bytes) → is_clear p f ≡ true → koanf.get p b ≡ or_else (lookup p f) (koanf.get p k))
  unfolding load_file load_layer lookup
  load_file-layer f k h = elim (List-cases opt.file_name) [
    | inl p ↦ (k, grind arith, λ q c. grind arith)
    | inr (x, xs, p) ↦ (koanf.load f k, grind arith, λ q c. laws.load_lem q f k c)
  ]

  load_cli-layer :
      (k : K)
      → (b : K) × (load_cli koanf sources opt k ≡ ok b)
        × ((p : Bytes)
            → is_clear p cli_layer ≡ true
            → koanf.get p b ≡ or_else (lookup p cli_layer) (koanf.get p k))
  unfolding load_cli load_layer lookup
  load_cli-layer k = elim (Option-cases opt.cli) [
    | inl p ↦ (k, grind arith, λ q c. grind arith)
    | inr (cli, p) ↦ (koanf.load cli_layer k, grind arith, λ q c. laws.load_lem q cli_layer k c)
  ]

  load_all-layers :
      (f e : Entries V)
      → file_layer ≡ ok f
      → env_layer ≡ ok e
      → (k : K) × (load_all koanf sources opt ≡ ok k)
        × ((p : Bytes)
            → is_clear p opt.defaults ≡ true
            → is_clear p f ≡ true
            → is_clear p e ≡ true
            → is_clear p cli_layer ≡ true
            → koanf.get p k
              ≡ or_else (lookup p cli_layer) (
                  or_else
                    (lookup p e)
                    (or_else (lookup p f) (or_else (lookup p opt.defaults) none))))
  unfolding load_all load_env load_layer
  load_all-layers f e h l =
      let (b, q, g) = load_file-layer f (koanf.load opt.defaults koanf.new) h in
      let (k, r, j) = load_cli-layer (koanf.load e b) in
      (
        k,
        rw (q, l) r,
        λ p a x y z.
            j p z
            ∙ ap (or_else (lookup p cli_layer)) (
                laws.load_lem p e b y
                ∙ ap (or_else (lookup p e)) (
                    g p x
                    ∙ ap (or_else (lookup p f)) (
                        laws.load_lem p opt.defaults koanf.new a
                        ∙ ap (or_else (lookup p opt.defaults)) (laws.new_lem p)))),
      )

  -- If the configuration is parsed, it is what the store spells in which a setting has the value of
  -- the flags, or else that of the environment, or else that of the file, or else the default, where
  -- each path that a source sets is the setting's or lies beside it.
  pub parse-precedence :
      (p : Bytes) (f e : Entries V) (c : C)
      → file_layer ≡ ok f
      → env_layer ≡ ok e
      → is_clear p opt.defaults ≡ true
      → is_clear p f ≡ true
      → is_clear p e ≡ true
      → is_clear p cli_layer ≡ true
      → parse koanf sources opt ≡ ok c
      → (k : K) × (koanf.unmarshal k ≡ ok c)
        × (koanf.get p k
            ≡ or_else (lookup p cli_layer) (
                or_else (lookup p e) (or_else (lookup p f) (or_else (lookup p opt.defaults) none))))
  unfolding parse
  parse-precedence p f e c h l x y z w q =
      let (k, r, g) = load_all-layers f e h l in (k, ground arith, g p x y z w)

  over_layer :
      (ps : Entries V) (b k : K)
      → ((p : Bytes)
          → is_clear p cli_layer ≡ true
          → koanf.get p k ≡ or_else (lookup p cli_layer) (koanf.get p b))
      → All (λ s. (is_clear s.0 cli_layer ≡ true) × (lookup s.0 cli_layer ≡ some s.1)) ps
      → All (λ s. koanf.get s.0 k ≡ some s.1) ps
  over_layer [] b k h a = tt
  over_layer ((p, v) ∷ ps) b k h a =
      (h p a.0.0 ∙ ap (λ o. or_else o (koanf.get p b)) a.0.1, over_layer ps b k h a.1)

  -- If the configuration is parsed, the store that it spells has the flags' values, whatever the
  -- defaults, the file and the environment set, where the keys of the flags lie beside each other.
  pub parse-cli :
      (ps : Entries V) (c : C)
      → All (λ s. (is_clear s.0 cli_layer ≡ true) × (lookup s.0 cli_layer ≡ some s.1)) ps
      → parse koanf sources opt ≡ ok c
      → (k : K) × (koanf.unmarshal k ≡ ok c) × All (λ s. koanf.get s.0 k ≡ some s.1) ps
  unfolding parse load_all
  parse-cli ps c a q =
      elim (Result-cases (load_file koanf sources opt (koanf.load opt.defaults koanf.new))) [
        | inl (f, e) ↦ elim (Result-cases (load_env koanf sources opt f)) [
          | inl (b, d) ↦
              let (k, r, g) = load_cli-layer b in (k, ground arith, over_layer ps b k g a)
          | inr d ↦ ground arith
        ]
        | inr e ↦ ground arith
      ]
