-- ===== src/Config/Nested.antt =====
-- util/conf/parse.go: the variables that set nested keys.
use shimmy_wasm_go.Base.{
  ℕ, ◌≡◌, ◌≢◌, refl, ap, ◌∙◌, ◌⊎◌, List, [], ◌∷◌, ◌++◌, map, Bytes, to_lower, All, arith,
}
use shimmy_wasm_go.Config.{replace_all, split, join, pop_prefix, transform_env}

-- A name without a point and without two underscores in a row, which does not end
-- with an underscore.
abbrev pub IsName : Bytes → Type 0
IsName [] = Unit
IsName (c ∷ []) = (c ≢ b'_') × (c ≢ b'.')
IsName (c ∷ d ∷ s) = ((c ≢ b'_') ⊎ (d ≢ b'_')) × (c ≢ b'.') × IsName (d ∷ s)

replace_all_name :
    (p t : Bytes) → IsName p → replace_all (p ++ b'_' ∷ b'_' ∷ t) ≡ p ++ b'.' ∷ replace_all t
unfolding replace_all
replace_all_name [] t h = ground arith
replace_all_name (c ∷ []) t h = ground arith
replace_all_name (c ∷ d ∷ s) t h = ground (arith, replace_all_name (d ∷ s) t h.2)

replace_all_last : (p : Bytes) → IsName p → replace_all p ≡ p
unfolding replace_all
replace_all_last [] h = refl
replace_all_last (c ∷ []) h = refl
replace_all_last (c ∷ d ∷ s) h = ground (arith, replace_all_last (d ∷ s) h.2)

split_name : (p t : Bytes) → IsName p → split (p ++ b'.' ∷ t) ≡ p ∷ split t
unfolding split
split_name [] t h = ground arith
split_name (c ∷ []) t h = ground arith
split_name (c ∷ d ∷ s) t h = ground (arith, split_name (d ∷ s) t h.2)

split_last : (p : Bytes) → IsName p → split p ≡ p ∷ []
unfolding split
split_last [] h = refl
split_last (c ∷ []) h = ground arith
split_last (c ∷ d ∷ s) h = ground (arith, split_last (d ∷ s) h.2)

abbrev pub underscores : Bytes
underscores = b'_' ∷ b'_' ∷ []

parts_of_names :
    (p : Bytes) (ps : List Bytes)
    → All IsName (p ∷ ps)
    → split (replace_all (join underscores (p ∷ ps))) ≡ p ∷ ps
parts_of_names p [] h = ap split (replace_all_last p h.0) ∙ split_last p h.0
parts_of_names p (q ∷ ps) h =
    ap split (replace_all_name p (join underscores (q ∷ ps)) h.0)
    ∙ split_name p (replace_all (join underscores (q ∷ ps))) h.0
    ∙ ap (λ z. p ∷ z) (parts_of_names q ps h.1)

-- A variable that in lower case is the prefix and names, joined by double underscores, sets the key
-- of these names, joined by points: the prefix is dropped, and single underscores in a name stay.
pub transform_env-join :
    (s p q : Bytes) (ps : List Bytes) (c : ℕ) (prefix : Bytes)
    → map to_lower s ≡ join underscores (p ∷ q ∷ ps)
    → All IsName (p ∷ q ∷ ps)
    → transform_env s (c ∷ prefix) ≡ join (b'.' ∷ []) (q ∷ ps)
unfolding transform_env
transform_env-join s p q ps c prefix e h =
    ap (λ z. join (b'.' ∷ []) (pop_prefix (c ∷ prefix) (split (replace_all z)))) e
    ∙ ap (λ z. join (b'.' ∷ []) (pop_prefix (c ∷ prefix) z)) (parts_of_names p (q ∷ ps) h)

-- A variable that has no double underscore and no point sets no key but the empty one, since its
-- only part is taken for the prefix.
pub transform_env-one :
    (s p : Bytes) (c : ℕ) (prefix : Bytes)
    → map to_lower s ≡ p
    → IsName p
    → transform_env s (c ∷ prefix) ≡ []
unfolding transform_env
transform_env-one s p c prefix e h =
    ap (λ z. join (b'.' ∷ []) (pop_prefix (c ∷ prefix) (split (replace_all z)))) e
    ∙ ap (λ z. join (b'.' ∷ []) (pop_prefix (c ∷ prefix) z)) (parts_of_names p [] (h, tt))
