-- ===== src/Http/Server/Keeps.antt =====
-- What each message to the evaluation function keeps of its state, the server keeps.
use shimmy_wasm_go.Base.{String, Option, List, [], ◌∷◌, arith}
use shimmy_wasm_go.Exec.{Error, Result}
use shimmy_wasm_go.Json.{Map}
use shimmy_wasm_go.Json.Codec.{Body}
use shimmy_wasm_go.Runtime.Command.{Command}
use shimmy_wasm_go.Runtime.Validate.{RuntimeHandler}
use shimmy_wasm_go.Runtime.MuEd.{EvaluateRequest}
use shimmy_wasm_go.Runtime.Handler.{handle}
use shimmy_wasm_go.Runtime.Keeps.{Keeps, handle-Keeps}
use shimmy_wasm_go.Http.Reply.{Reply, HttpRequest}
use shimmy_wasm_go.Http.Path.{Route}
use shimmy_wasm_go.Http.Path
use shimmy_wasm_go.Http.CommandHandler.{serve_http}
use shimmy_wasm_go.Http.MuEdHandler.{serve_decoded, serve_evaluate, serve_health}
use shimmy_wasm_go.Http.Server.{handle_route, serve, serve_all}

module _ {S : Type 0} (P : S → Type 0) (h : RuntimeHandler S) (key : String)
    (decode : Body → Result Error EvaluateRequest) (redirect : HttpRequest → Option Reply)
    (kept : (c : Command) (m : Map) → Keeps P (h.runtime.handle c m)) where
  serve_http-Keeps : (r : HttpRequest) (s : S) → P s → P (serve_http (handle h) key r s).1
  unfolding serve_http
  serve_http-Keeps r s p = grind (arith, handle-Keeps P h kept)

  serve_decoded-Keeps :
      (path : String) (req : EvaluateRequest) (s : S)
      → P s
      → P (serve_decoded (handle h) key decode path req s).1
  unfolding serve_decoded
  serve_decoded-Keeps path req s p = grind (arith, handle-Keeps P h kept)

  serve_evaluate-Keeps :
      (r : HttpRequest) (s : S) → P s → P (serve_evaluate (handle h) key decode r s).1
  unfolding serve_evaluate
  serve_evaluate-Keeps r s p = grind (arith, serve_decoded-Keeps)

  serve_health-Keeps : (r : HttpRequest) (s : S) → P s → P (serve_health h.runtime key r s).1
  unfolding serve_health
  serve_health-Keeps r s p = grind (arith, kept)

  handle_route-Keeps :
      (route : Route) (r : HttpRequest) (s : S)
      → P s
      → P (handle_route h key decode redirect route r s).1
  unfolding handle_route
  handle_route-Keeps Path.legacy r s p = serve_http-Keeps r s p
  handle_route-Keeps Path.health r s p = p
  handle_route-Keeps Path.mued_evaluate r s p = serve_evaluate-Keeps r s p
  handle_route-Keeps Path.mued_health r s p = serve_health-Keeps r s p

  serve-Keeps : (r : HttpRequest) (s : S) → P s → P (serve h key decode redirect r s).1
  unfolding serve
  serve-Keeps r s p = grind (arith, handle_route-Keeps)

  pub serve_all-Keeps :
      (rs : List HttpRequest) (s : S) → P s → P (serve_all h key decode redirect rs s)
  unfolding serve_all
  serve_all-Keeps [] s p = p
  serve_all-Keeps (r ∷ rs) s p = serve_all-Keeps rs _ (serve-Keeps r s p)
