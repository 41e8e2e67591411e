-- ===== src/Runtime/Handler.antt =====
-- `Handle` and `handle` of runtime/handler.go.
pub mod Status
pub mod Plain
pub mod Branches
pub mod Unasked
use shimmy_wasm_go.Base.{String, Bool, true, false, Option, none, some, str_eq, if◌then◌else◌}
use shimmy_wasm_go.Exec.{Exec, Result, ok, err, panics, pure, raise, panic, lift, ◌>>=◌}
use shimmy_wasm_go.Json.{object, Fields, get, put, as_object, Map, entries}
use shimmy_wasm_go.Json.Codec.{Body, empty_body, unmarshal, marshal}
use shimmy_wasm_go.Runtime.Command.{Command, eval, parse_command, get_command}
use shimmy_wasm_go.Runtime.Errors.{
  RuntimeError, invalid_method, command_not_found, invalid_command, as_other,
}
use shimmy_wasm_go.Runtime.Response.{Request, Response, new_response, new_error_response}
use shimmy_wasm_go.Runtime.Validate.{RuntimeHandler}
use shimmy_wasm_go.Runtime.Send.{send_command}
use shimmy_wasm_go.Runtime.Cases.{process_eval}

-- `command == "eval"`
abbrev pub is_eval : Command → Bool
is_eval eval = true
is_eval _ = false

module _ {S : Type 0} (h : RuntimeHandler S) (req : Request) where
  -- From the answer of the evaluation function on. Where it holds no result object the code
  -- returns no data and the error of `json.Unmarshal`, which is nil as a rule.
  unfoldable pub finish : Command → Map → Result RuntimeError Map → Exec RuntimeError S Body
  unfolding process_eval
  finish command req_body (err e) = raise e
  finish command req_body panics = panic
  finish command req_body (ok resp_body) = elim (as_object (get "result" (entries resp_body))) [
    | none ↦ pure empty_body
    | some result ↦
        if is_eval command
        then (do
          result' ← process_eval h req command (entries req_body) result
          pure (marshal (some (put "result" (object result') (entries resp_body)))))
        else pure (marshal resp_body)
  ]

  unfoldable pub run_command : Command → Exec RuntimeError S Body
  unfolding send_command finish
  run_command command = do
    res_data ← send_command req command h
    req_body ← lift (as_other (unmarshal req.body))
    finish command req_body (as_other (unmarshal res_data))

  unfoldable pub handle_request : Exec RuntimeError S Body
  unfolding parse_command get_command run_command
  handle_request =
      if str_eq req.method "POST"
      then (if (get_command req.header).1
          then (elim (parse_command (get_command req.header).0) [
            | none ↦ raise invalid_command
            | some command ↦ run_command command
          ])
          else raise command_not_found)
      else raise invalid_method

-- `Handle`: `none` is a panic, which goes on to the server.
abbrev pub respond : Result RuntimeError Body → Option Response
respond (ok body) = some (new_response 200 body)
respond (err e) = some (new_error_response e)
respond panics = none

unfoldable pub handle : {S : Type 0} → RuntimeHandler S → Request → S → Option Response × S
unfolding handle_request new_response new_error_response
handle h req s = let run = handle_request h req s in (respond run.0, run.1)
