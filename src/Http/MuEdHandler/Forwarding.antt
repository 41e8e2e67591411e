-- ===== src/Http/MuEdHandler/Forwarding.antt =====
-- The muEd route over the runtime handler.
use shimmy_wasm_go.Base.{String, ◌≡◌, refl, Bool, true, false, some, str_eq}
use shimmy_wasm_go.Json.{Fields}
use shimmy_wasm_go.Json.Codec.{empty_body}
use shimmy_wasm_go.Runtime.Command.{parse_command, get_command}
use shimmy_wasm_go.Runtime.Response.{new_response}
use shimmy_wasm_go.Http.Reply.{http_error}
use shimmy_wasm_go.Http.MuEdHandler.{legacy_request, the_command, replied, convert}

-- The request that the route builds passes the runtime handler's checks of the method and the
-- command, for the command that the mode stands for.
pub legacy_request-command :
    (path : String) (mode : Bool) (body : Fields)
    → (str_eq (legacy_request path mode body).method "POST" ≡ true)
      × (parse_command (get_command (legacy_request path mode body).header).0
          ≡ some (the_command mode))
unfolding legacy_request get_command parse_command
legacy_request-command path true body = (refl, refl)
legacy_request-command path false body = (refl, refl)

-- The empty answer that the runtime handler sends where the result is missing, under the status
-- 200, comes out of the muEd route as an internal error.
pub replied_empty :
    {S : Type 0} (mode : Bool) (s : S)
    → replied mode (some (new_response 200 empty_body), s)
      ≡ (some (http_error "failed to parse response" 500), s)
unfolding convert new_response
replied_empty mode s = refl
