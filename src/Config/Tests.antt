-- ===== src/Config/Tests.antt =====
-- Runs on the names of variables and on switches.
use shimmy_wasm_go.Base.{ℕ, ◌≡◌, refl, inl, inr, true, false, List, [], ◌∷◌, codes, All, arith}
use shimmy_wasm_go.Config.{transform_env, truthy, join}
use shimmy_wasm_go.Config.Nested.{IsName, transform_env-join}

truthy_yes : truthy (codes " Yes ") ≡ true
unfolding truthy
truthy_yes = refl

truthy_other : truthy (codes "on") ≡ false
unfolding truthy
truthy_other = refl

three_names : All IsName (codes "shimmy" ∷ codes "server" ∷ codes "log_level" ∷ [])
three_names = ground arith

transform_env-join_example :
    transform_env (codes "SHIMMY__SERVER__LOG_LEVEL") (codes "SHIMMY")
    ≡ join (codes ".") (codes "server" ∷ codes "log_level" ∷ [])
unfolding shimmy_wasm_go.Base.to_lower
transform_env-join_example =
    transform_env-join (codes "SHIMMY__SERVER__LOG_LEVEL") (codes "shimmy") (codes "server")
      (codes "log_level" ∷ []) b'S' (codes "HIMMY") refl three_names
