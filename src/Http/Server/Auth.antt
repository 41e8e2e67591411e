-- ===== src/Http/Server/Auth.antt =====
-- Requests without the key get to no evaluation function, whatever their path.
use shimmy_wasm_go.Base.{String, Option, List, [], ◌∷◌, ◌≡◌, refl, ap, ◌∙◌, true, All, arith}
use shimmy_wasm_go.Exec.{Error, Result}
use shimmy_wasm_go.Json.Codec.{Body}
use shimmy_wasm_go.Runtime.Handler.{handle}
use shimmy_wasm_go.Runtime.Validate.{RuntimeHandler}
use shimmy_wasm_go.Runtime.MuEd.{EvaluateRequest}
use shimmy_wasm_go.Http.Reply.{Reply, HttpRequest, is_unauthorized}
use shimmy_wasm_go.Http.Path.{Route}
use shimmy_wasm_go.Http.Path
use shimmy_wasm_go.Http.MuEdHandler.Auth.{unauthorized}
use shimmy_wasm_go.Http.Server.{normalized, handle_route, serve, serve_all}

module _ {S : Type 0} (h : RuntimeHandler S) (key : String)
    (decode : Body → Result Error EvaluateRequest) (redirect : HttpRequest → Option Reply) where
  handle_route-unauthorized :
      (route : Route) (r : HttpRequest) (s : S)
      → is_unauthorized key r.header ≡ true
      → (handle_route h key decode redirect route r s).1 ≡ s
  unfolding handle_route
  handle_route-unauthorized Path.legacy r s u =
      ap (λ z. z.1) (unauthorized (handle h) h.runtime decode key r s u).0
  handle_route-unauthorized Path.health r s u = refl
  handle_route-unauthorized Path.mued_evaluate r s u =
      ap (λ z. z.1) (unauthorized (handle h) h.runtime decode key r s u).1
  handle_route-unauthorized Path.mued_health r s u =
      ap (λ z. z.1) (unauthorized (handle h) h.runtime decode key r s u).2

  header-normalized : (r : HttpRequest) → (normalized r).header ≡ r.header
  unfolding normalized
  header-normalized r = ground arith

  serve-unauthorized :
      (r : HttpRequest) (s : S)
      → is_unauthorized key r.header ≡ true
      → (serve h key decode redirect r s).1 ≡ s
  unfolding serve
  serve-unauthorized r s u =
      let v : is_unauthorized key (normalized r).header ≡ true =
        ap (is_unauthorized key) (header-normalized r) ∙ u in
      grind (arith, handle_route-unauthorized)

  -- Where a key is configured, requests that do not bring it leave the state of the evaluation
  -- function as it is, whatever their paths, methods and bodies: no worker is started or asked.
  pub serve_all-unauthorized :
      (rs : List HttpRequest) (s : S)
      → All (λ r. is_unauthorized key r.header ≡ true) rs
      → serve_all h key decode redirect rs s ≡ s
  unfolding serve_all
  serve_all-unauthorized [] s u = refl
  serve_all-unauthorized (r ∷ rs) s u =
      ap (serve_all h key decode redirect rs) (serve-unauthorized r s u.0)
      ∙ serve_all-unauthorized rs s u.1
