-- ===== src/Config/Merge.antt =====
-- util/conf/merge.go
use shimmy_wasm_go.Base.{
  Bytes, bytes_eq, bytes_eq→eq, List, [], ◌∷◌, ◌++◌, ◌≡◌, refl, ap, ◌∙◌, Option, none, All, arith,
  Bool-cases, inl, inr,
}
use shimmy_wasm_go.Config.Flags.{Entries, lookup, assign}
use shimmy_wasm_go.Config.Flags.Values.{lookup-assign, IsUnique}
use shimmy_wasm_go.Config.Parse.Precedence.{or_else}

abbrev pub in_namespace : Bytes → Bytes → Bytes
in_namespace ns key = ns ++ b'.' ∷ key

module _ {V : Type 0} (ns : Bytes) where
  -- the loop over one map
  unfoldable pub add_map : Entries V → Entries V → Entries V
  unfolding assign
  add_map [] merged = merged
  add_map ((key, v) ∷ m) merged = add_map m (assign (in_namespace ns key) v merged)

  unfoldable pub add_maps : List (Entries V) → Entries V → Entries V
  unfolding add_map
  add_maps [] merged = merged
  add_maps (m ∷ ms) merged = add_maps ms (add_map m merged)

  -- `MergeDefaults`
  unfoldable pub merge_defaults : List (Entries V) → Entries V
  unfolding add_maps
  merge_defaults maps = add_maps maps []

in_namespace_lem :
    (ns j k : Bytes) → bytes_eq (in_namespace ns j) (in_namespace ns k) ≡ bytes_eq j k
unfolding bytes_eq
in_namespace_lem [] j k = refl
in_namespace_lem (c ∷ ns) j k = grind (arith, in_namespace_lem ns j k)

-- the value in the last map that has the key
abbrev pub last_value : {V : Type 0} → Bytes → List (Entries V) → Option V → Option V
last_value k [] o = o
last_value k (m ∷ ms) o = last_value k ms (or_else (lookup k m) o)

module _ {V : Type 0} (ns k : Bytes) where
  lookup-add_map :
      (m merged : Entries V)
      → IsUnique m
      → lookup (in_namespace ns k) (add_map ns m merged)
        ≡ or_else (lookup k m) (lookup (in_namespace ns k) merged)
  unfolding add_map lookup
  lookup-add_map [] merged u = refl
  lookup-add_map ((j, v) ∷ m) merged u =
      lookup-add_map m (assign (in_namespace ns j) v merged) u.1
      ∙ ap (or_else (lookup k m)) (lookup-assign (in_namespace ns k) (in_namespace ns j) v merged)
      ∙ elim (Bool-cases (bytes_eq j k)) [
        | inl e ↦ grind (arith, in_namespace_lem ns j k, bytes_eq→eq j k e)
        | inr e ↦ grind (arith, in_namespace_lem ns j k)
      ]

  lookup-add_maps :
      (ms : List (Entries V)) (merged : Entries V)
      → All IsUnique ms
      → lookup (in_namespace ns k) (add_maps ns ms merged)
        ≡ last_value k ms (lookup (in_namespace ns k) merged)
  unfolding add_maps
  lookup-add_maps [] merged u = refl
  lookup-add_maps (m ∷ ms) merged u =
      lookup-add_maps ms (add_map ns m merged) u.1
      ∙ ap (last_value k ms) (lookup-add_map m merged u.0)

  -- The merged map has, under the namespace and a key, the value of the last map that has the key.
  pub lookup-merge_defaults :
      (ms : List (Entries V))
      → All IsUnique ms
      → lookup (in_namespace ns k) (merge_defaults ns ms) ≡ last_value k ms none
  unfolding merge_defaults lookup
  lookup-merge_defaults ms u = lookup-add_maps ms [] u
