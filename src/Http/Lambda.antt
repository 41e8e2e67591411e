-- ===== src/Http/Lambda.antt =====
-- app/lambda/: the handler of AWS Lambda. The adapters between Lambda's events and HTTP requests,
-- and the loop that takes the events, are those of other packages.
use shimmy_wasm_go.Base.{String, str_eq, Bool, true, false, if◌then◌else◌}
use shimmy_wasm_go.Exec.{Error, message, Result, ok, err, panics}

-- `ProxySource` is a text; these are the adapters for its constants.
pub data ProxyFunction : Type 0 where
  api_gateway_v1 api_gateway_v2 alb : ProxyFunction

-- `LambdaHandler`: the source, the events that a goroutine takes, and whether its context is
-- cancelled.
pub record LambdaHandler : Type 0 where
  pub proxy_source : String
  pub serving : Bool
  pub cancelled : Bool

-- `NewLambdaHandler`
abbrev pub new_lambda_handler : String → LambdaHandler
new_lambda_handler source = record { proxy_source = source; serving = false; cancelled = false }

-- `getProxyFunction`
unfoldable pub get_proxy_function : LambdaHandler → Result Error ProxyFunction
get_proxy_function h =
    if str_eq h.proxy_source "API_GW_V1"
    then ok api_gateway_v1
    else if str_eq h.proxy_source "API_GW_V2"
    then ok api_gateway_v2
    else if str_eq h.proxy_source "ALB"
    then ok alb
    else err (message "invalid proxy source")

-- `Start`, which goes on in a goroutine
unfoldable pub start : LambdaHandler → Result Error ProxyFunction × LambdaHandler
unfolding get_proxy_function
start h = elim (get_proxy_function h) [
  | ok f ↦ (ok f, record h { serving = true })
  | err e ↦ (err e, h)
  | panics ↦ (panics, h)
]

-- `Shutdown`
unfoldable pub shut_down : LambdaHandler → LambdaHandler
shut_down h = record h { cancelled = true }
