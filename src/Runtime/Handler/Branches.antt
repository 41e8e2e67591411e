-- ===== src/Runtime/Handler/Branches.antt =====
-- What `Handle` refuses.
use shimmy_wasm_go.Base.{String, ◌≡◌, ◌⊎◌, if◌then◌else◌, true, false, none, some, str_eq, arith}
use shimmy_wasm_go.Exec.{message}
use shimmy_wasm_go.Json.Codec.{malformed, unmarshal}
use shimmy_wasm_go.Runtime.Command.{Command, parse_command, get_command}
use shimmy_wasm_go.Runtime.Errors.{invalid_method, invalid_command, other}
use shimmy_wasm_go.Runtime.Response.{Request, new_error_response}
use shimmy_wasm_go.Runtime.Validate.{RuntimeHandler}
use shimmy_wasm_go.Runtime.Send.{send_command}
use shimmy_wasm_go.Runtime.Handler.{handle, handle_request, run_command}

module _ {S : Type 0} (h : RuntimeHandler S) (req : Request) where
  -- A request with another method than POST, or whose command is none of the three, is refused
  -- with its own error, and the evaluation function is not asked.
  pub handle_refuses :
      (s : S)
      → (str_eq req.method "POST" ≡ false) ⊎ (parse_command (get_command req.header).0 ≡ none)
      → handle h req s ≡ (
        some (
            new_error_response
              (if str_eq req.method "POST" then invalid_command else invalid_method)),
        s,
      )
  unfolding handle handle_request
  handle_refuses s p = ground arith

  -- A body that is no JSON is an internal error, also for the command that needs no body.
  pub handle_malformed :
      (c : Command) (text : String) (s : S)
      → str_eq req.method "POST" ≡ true
      → parse_command (get_command req.header).0 ≡ some c
      → req.body ≡ malformed text
      → handle h req s ≡ (some (new_error_response (other (message text))), s)
  unfolding handle handle_request run_command send_command unmarshal
  handle_malformed c text s p q b = ground arith
