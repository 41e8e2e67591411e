-- ===== src/Http/Reply.antt =====
-- What a handler writes to `http.ResponseWriter`.
use shimmy_wasm_go.Base.{ℕ, String, [], ◌∷◌, str_eq, not, ◌&&◌, Bool, Option}
use shimmy_wasm_go.Exec.{◌<>◌}
use shimmy_wasm_go.Json.Codec.{Body}
use shimmy_wasm_go.Runtime.Command.{Header, header_get}
use shimmy_wasm_go.Runtime.Response.{Response}

pub data Payload : Type 0 where
  plain : String → Payload
  body : Body → Payload

pub record Reply : Type 0 where
  pub status : ℕ
  pub header : Header
  pub payload : Payload

-- `http.Error`, on a writer whose header is empty
abbrev pub http_error : String → ℕ → Reply
http_error text status = record {
  status = status;
  header =
      ("Content-Type", "text/plain; charset=utf-8" ∷ [])
      ∷ ("X-Content-Type-Options", "nosniff" ∷ [])
      ∷ [];
  payload = plain (text <> "\n");
}

abbrev pub json_reply : Body → Reply
json_reply b = record {
  status = 200;
  header = ("Content-Type", "application/json" ∷ []) ∷ [];
  payload = body b;
}

-- The loops over the response's headers add each value under its key to the empty header, which
-- gives the header itself; then come the status and the body.
abbrev pub forward : Response → Reply
forward r = record { status = r.status_code; header = r.header; payload = body r.body }

-- A request that comes in; `none` is a body that could not be read.
pub record HttpRequest : Type 0 where
  pub path : String
  pub method : String
  pub header : Header
  pub content : Option Body

-- `config.Auth.Key != "" && r.Header.Get("api-key") != config.Auth.Key`
unfoldable pub is_unauthorized : String → Header → Bool
unfolding header_get
is_unauthorized key h = not (str_eq key "") && not (str_eq (header_get "Api-Key" h) key)
