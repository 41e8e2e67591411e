-- ===== src/Http/CommandHandler.antt =====
-- `ServeHTTP` of handler/handler.go, and handler/health.go.
use shimmy_wasm_go.Base.{String, Option, none, some, if◌then◌else◌}
use shimmy_wasm_go.Json.{string, field, end}
use shimmy_wasm_go.Json.Codec.{Body, marshal}
use shimmy_wasm_go.Runtime.Response.{Request, Response}
use shimmy_wasm_go.Http.Reply.{Reply, HttpRequest, http_error, forward, json_reply, is_unauthorized}

-- `HealthHandler`
unfoldable pub health_handler : Reply
unfolding marshal
health_handler = json_reply (marshal (some (field "status" (string "ok") end)))

module _ {S : Type 0} (handle : Request → S → Option Response × S) (key : String) where
  abbrev forwarded : Option Response × S → Option Reply × S
  forwarded (none, s) = (none, s)
  forwarded (some r, s) = (some (forward r), s)

  abbrev the_request : HttpRequest → Body → Request
  the_request r b = record { path = r.path; method = r.method; body = b; header = r.header }

  -- `none` is a panic of the runtime handler.
  unfoldable pub serve_http : HttpRequest → S → Option Reply × S
  unfolding is_unauthorized
  serve_http r s =
      if is_unauthorized key r.header
      then (some (http_error "unauthorized" 401), s)
      else elim r.content [
        | none ↦ (some (http_error "failed to read body" 400), s)
        | some b ↦ forwarded (handle (the_request r b) s)
      ]
