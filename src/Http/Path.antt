-- ===== src/Http/Path.antt =====
-- internal/server/middleware.go, and the routes of handler/routes.go. A path is its bytes.
use mathlib.Core.List.{reverse, reverse-append}
use shimmy_wasm_go.Base.{
  true, false, ◌++◌, ◌≡◌, refl, Bytes, codes, has_suffix, has_prefix-append, bytes_eq,
  if◌then◌else◌, arith,
}

abbrev pub evaluate_health : Bytes
evaluate_health = codes "/evaluate/health"

abbrev pub evaluate : Bytes
evaluate = codes "/evaluate"

-- `NormalizePath`: the path that the wrapped handler sees
unfoldable pub normalize_path : Bytes → Bytes
unfolding has_suffix
normalize_path path =
    if has_suffix evaluate_health path
    then evaluate_health
    else if has_suffix evaluate path
    then evaluate
    else path

-- the handlers that handler/routes.go registers
pub data Route : Type 0 where
  legacy health mued_evaluate mued_health : Route

-- The multiplexer takes an exact pattern first, and `/` for any other path.
unfoldable pub route : Bytes → Route
unfolding bytes_eq
route path =
    if bytes_eq path (codes "/evaluate/health")
    then Route.mued_health
    else if bytes_eq path (codes "/evaluate")
    then Route.mued_evaluate
    else if bytes_eq path (codes "/health")
    then Route.health
    else Route.legacy

-- Normalising a second time changes nothing.
pub normalize_path_idem :
    (path : Bytes) → normalize_path (normalize_path path) ≡ normalize_path path
unfolding normalize_path
normalize_path_idem path = ground arith

has_suffix-append : (p t : Bytes) → has_suffix p (t ++ p) ≡ true
unfolding has_suffix
has_suffix-append p t = rw (reverse-append t p) (has_prefix-append (reverse p) (reverse t))

-- The two ends tell the two paths apart, since their last letters differ.
not_health : (t : Bytes) → has_suffix evaluate_health (t ++ evaluate) ≡ false
unfolding has_suffix
not_health t = rw (reverse-append t evaluate) refl

-- Whatever stands before `/evaluate` and `/evaluate/health`, as the name of the function that an
-- API gateway forwards, the request gets to the muEd handlers.
pub route-normalize_path :
    (prefix : Bytes)
    → (route (normalize_path (prefix ++ evaluate)) ≡ Route.mued_evaluate)
      × (route (normalize_path (prefix ++ evaluate_health)) ≡ Route.mued_health)
unfolding normalize_path route
route-normalize_path prefix = (
  rw (not_health prefix, normalize_path, has_suffix-append evaluate prefix) refl,
  rw (has_suffix-append evaluate_health prefix, normalize_path) refl,
)
