-- ===== src/Http/MuEdHandler/Auth.antt =====
-- Requests without the key get to no handler behind the check.
use shimmy_wasm_go.Base.{String, ◌≡◌, true, Option, some}
use shimmy_wasm_go.Exec.{Error, Result}
use shimmy_wasm_go.Json.Codec.{Body}
use shimmy_wasm_go.Runtime.Response.{Request, Response}
use shimmy_wasm_go.Runtime.Validate.{Runtime}
use shimmy_wasm_go.Runtime.MuEd.{EvaluateRequest}
use shimmy_wasm_go.Http.Reply.{HttpRequest, http_error, is_unauthorized}
use shimmy_wasm_go.Http.CommandHandler.{serve_http}
use shimmy_wasm_go.Http.MuEdHandler.{serve_evaluate, serve_health}

-- Where a key is configured, a request that does not bring it is answered with 401 on all three
-- routes that ask the evaluation function, and the function's state stays.
pub unauthorized :
    {S : Type 0} (handle : Request → S → Option Response × S) (rt : Runtime S)
    (decode : Body → Result Error EvaluateRequest) (key : String) (r : HttpRequest) (s : S)
    → is_unauthorized key r.header ≡ true
    → (serve_http handle key r s ≡ (some (http_error "unauthorized" 401), s))
      × (serve_evaluate handle key decode r s ≡ (some (http_error "unauthorized" 401), s))
      × (serve_health rt key r s ≡ (some (http_error "unauthorized" 401), s))
unfolding serve_http serve_evaluate serve_health
unauthorized handle rt decode key r s h = (rw h, rw h, rw h)
