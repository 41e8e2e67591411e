-- ===== src/Http/Server/Legacy.antt =====
-- What evaluations and previews of the muEd route share: the way of a request to the runtime handler
-- (handler/mued.go, runtime/handler.go).
use shimmy_wasm_go.Base.{
  String, Bool, Option, none, some, ◌≡◌, refl, true, false, codes, arith, has_suffix,
}
use shimmy_wasm_go.Exec.{Error, Result, ok}
use shimmy_wasm_go.Json.{Value, Fields, end, field, get}
use shimmy_wasm_go.Json.Codec.{Body, marshal, to_json, to_json_fields, unmarshal-marshal}
use shimmy_wasm_go.Runtime.Errors.{request, response}
use shimmy_wasm_go.Runtime.Response.{new_response}
use shimmy_wasm_go.Runtime.Send.{send_command}
use shimmy_wasm_go.Runtime.Handler.{handle}
use shimmy_wasm_go.Runtime.Validate.{RuntimeHandler, validate}
use shimmy_wasm_go.Runtime.MuEd.{EvaluateRequest}
use shimmy_wasm_go.Http.Reply.{Reply, HttpRequest, is_unauthorized}
use shimmy_wasm_go.Http.Path.{evaluate, evaluate_health, route}
use shimmy_wasm_go.Http.MuEdHandler.{
  the_command, is_preview, legacy_body, legacy_request, serve_evaluate, serve_decoded, convert,
}
use shimmy_wasm_go.Http.Server.{normalized, handle_route, mux, serve}

abbrev pub json_option : Option Value → Option Value
json_option none = none
json_option (some v) = some (to_json v)

pub get-to_json_fields :
    (k : String) (m : Fields) → get k (to_json_fields m) ≡ json_option (get k m)
unfolding get to_json_fields
get-to_json_fields k end = refl
get-to_json_fields k (field j v m) = ground (arith, get-to_json_fields k m)

module _ {S : Type 0} (h : RuntimeHandler S) where
  pub send_command-legacy :
      (path : String) (mode : Bool) (body m : Fields) (s t : S)
      → validate h request (the_command mode) (some (to_json_fields body)) ≡ ok tt
      → h.runtime.handle (the_command mode) (some (to_json_fields body)) s ≡ (ok (some m), t)
      → validate h response (the_command mode) (some m) ≡ ok tt
      → send_command (legacy_request path mode body) (the_command mode) h s
        ≡ (ok (marshal (some m)), t)
  unfolding send_command legacy_request
  send_command-legacy path mode body m s t v a w = ground (arith, unmarshal-marshal body)

pub normalized-evaluate :
    (r : HttpRequest)
    → has_suffix evaluate_health (codes r.path) ≡ false
    → has_suffix evaluate (codes r.path) ≡ true
    → normalized r ≡ record r { path = "/evaluate" }
unfolding normalized
normalized-evaluate r e p = rw (e, p) refl

module _ {S : Type 0} (h : RuntimeHandler S) (key : String)
    (decode : Body → Result Error EvaluateRequest) (redirect : HttpRequest → Option Reply) where
  pub serve_decoded-converted :
      (path : String) (mode : Bool) (req : EvaluateRequest) (body : Fields) (b : Body)
      (reply : Reply) (s t : S)
      → is_preview req ≡ mode
      → legacy_body req ≡ ok body
      → handle h (legacy_request path mode body) s ≡ (some (new_response 200 b), t)
      → convert mode b ≡ reply
      → serve_decoded (handle h) key decode path req s ≡ (some reply, t)
  unfolding serve_decoded new_response
  serve_decoded-converted path mode req body b reply s t n l a c = ground arith

  pub serve_evaluate-decoded :
      (r : HttpRequest) (b : Body) (req : EvaluateRequest) (s : S)
      → is_unauthorized key r.header ≡ false
      → r.method ≡ "POST"
      → r.content ≡ some b
      → decode b ≡ ok req
      → serve_evaluate (handle h) key decode r s ≡ serve_decoded (handle h) key decode r.path req s
  unfolding serve_evaluate
  serve_evaluate-decoded r b req s u k q o = rw (u, k, q, o) refl

  pub serve-routed :
      (r : HttpRequest) (s : S)
      → redirect (normalized r) ≡ none
      → normalized r ≡ record r { path = "/evaluate" }
      → serve h key decode redirect r s
        ≡ serve_evaluate (handle h) key decode (record r { path = "/evaluate" }) s
  unfolding serve route handle_route
  serve-routed r s d e = rw e (rw (rw e at d, mux) refl)
