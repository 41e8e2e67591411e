-- ===== src/Config.antt =====
-- util/conf/parse.go: the key of the configuration that an environment variable sets, and
-- util/truthy.go.
pub mod Nested
pub mod Flags
pub mod Parse
pub mod Merge
pub mod Models
mod Tests
use shimmy_wasm_go.Base.{
  ℕ, Bool, true, false, ◌||◌, List, [], ◌∷◌, ◌++◌, map, Bytes, codes, bytes_eq, to_lower, trim_left,
  trim_right, ◌==◌, if◌then◌else◌,
}

-- `strings.ReplaceAll(s, "__", ".")`
unfoldable pub replace_all : Bytes → Bytes
replace_all [] = []
replace_all (c ∷ []) = c ∷ []
replace_all (c ∷ d ∷ s) = elim (c == b'_') [
  | false ↦ c ∷ replace_all (d ∷ s)
  | true ↦ elim (d == b'_') [ true ↦ b'.' ∷ replace_all s | false ↦ c ∷ replace_all (d ∷ s) ]
]

abbrev pub cons_head : ℕ → List Bytes → List Bytes
cons_head c [] = (c ∷ []) ∷ []
cons_head c (p ∷ ps) = (c ∷ p) ∷ ps

-- `strings.Split(s, ".")`
unfoldable pub split : Bytes → List Bytes
split [] = [] ∷ []
split (c ∷ s) = let rest = split s in if c == b'.' then [] ∷ rest else cons_head c rest

-- `strings.Join`
abbrev pub join : Bytes → List Bytes → Bytes
join sep [] = []
join sep (p ∷ []) = p
join sep (p ∷ q ∷ ps) = p ++ (sep ++ join sep (q ∷ ps))

abbrev pub pop_prefix : Bytes → List Bytes → List Bytes
pop_prefix [] parts = parts
pop_prefix (c ∷ s) [] = []
pop_prefix (c ∷ s) (p ∷ parts) = parts

-- `transformEnv`
unfoldable pub transform_env : Bytes → Bytes → Bytes
unfolding replace_all split to_lower
transform_env s prefix = join (b'.' ∷ []) (pop_prefix prefix (split (replace_all (map to_lower s))))

-- `Truthy`
unfoldable pub truthy : Bytes → Bool
unfolding trim_left trim_right to_lower bytes_eq
truthy s =
    let normalized = map to_lower (trim_right (λ c. c == b' ') (trim_left (λ c. c == b' ') s)) in
    bytes_eq normalized (codes "true")
    || (bytes_eq normalized (codes "1") || bytes_eq normalized (codes "yes"))
