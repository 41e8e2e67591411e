-- ===== src/Http/Server.antt =====
-- internal/server/server.go, and app/lambda/handler.go with the same handlers: the paths are
-- rewritten, and the multiplexer gives each request to a handler of handler/routes.go.
pub mod Keeps
pub mod Dedicated
pub mod Auth
pub mod Legacy
pub mod Evaluate
pub mod Preview
use shimmy_wasm_go.Base.{
  String, Option, none, some, List, [], ◌∷◌, codes, if◌then◌else◌, has_suffix,
}
use shimmy_wasm_go.Exec.{Error, Result}
use shimmy_wasm_go.Json.Codec.{Body}
use shimmy_wasm_go.Runtime.Validate.{RuntimeHandler}
use shimmy_wasm_go.Runtime.MuEd.{EvaluateRequest}
use shimmy_wasm_go.Runtime.Handler.{handle}
use shimmy_wasm_go.Http.Reply.{Reply, HttpRequest}
use shimmy_wasm_go.Http.Path.{Route, evaluate, evaluate_health, route}
use shimmy_wasm_go.Http.Path
use shimmy_wasm_go.Http.CommandHandler.{serve_http, health_handler}
use shimmy_wasm_go.Http.MuEdHandler.{serve_evaluate, serve_health}

-- The clone of a request that `NormalizePath` passes on.
unfoldable pub normalized : HttpRequest → HttpRequest
unfolding has_suffix
normalized r =
    if has_suffix evaluate_health (codes r.path)
    then record r { path = "/evaluate/health" }
    else if has_suffix evaluate (codes r.path)
    then record r { path = "/evaluate" }
    else r

-- `redirect` is what the multiplexer itself answers to a path that is not clean.
module _ {S : Type 0} (h : RuntimeHandler S) (key : String)
    (decode : Body → Result Error EvaluateRequest) (redirect : HttpRequest → Option Reply) where
  unfoldable pub handle_route : Route → HttpRequest → S → Option Reply × S
  unfolding serve_http health_handler serve_evaluate serve_health
  handle_route Path.legacy r s = serve_http (handle h) key r s
  handle_route Path.health r s = (some health_handler, s)
  handle_route Path.mued_evaluate r s = serve_evaluate (handle h) key decode r s
  handle_route Path.mued_health r s = serve_health h.runtime key r s

  abbrev mux : HttpRequest → S → Option Reply × S
  mux r s = elim (redirect r) [
    | some reply ↦ (some reply, s)
    | none ↦ handle_route (route (codes r.path)) r s
  ]

  unfoldable pub serve : HttpRequest → S → Option Reply × S
  unfolding normalized route handle_route
  serve r s = mux (normalized r) s

  -- requests one behind the other; the server recovers from a panic of a handler
  unfoldable pub serve_all : List HttpRequest → S → S
  unfolding serve
  serve_all [] s = s
  serve_all (r ∷ rs) s = serve_all rs (serve r s).1
