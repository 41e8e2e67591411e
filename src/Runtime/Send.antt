-- ===== src/Runtime/Send.antt =====
-- `SendCommand` of runtime/handler.go.
pub mod Gate
use shimmy_wasm_go.Exec.{Exec, Result, pure, lift, ok, err, panics, ◌>>=◌, ◌>>◌, continue}
use shimmy_wasm_go.Json.Codec.{Body, unmarshal, marshal}
use shimmy_wasm_go.Json.{Map}
use shimmy_wasm_go.Runtime.Command.{Command}
use shimmy_wasm_go.Runtime.Errors.{request, response, RuntimeError, as_other}
use shimmy_wasm_go.Runtime.Response.{Request}
use shimmy_wasm_go.Runtime.Validate.{Runtime, RuntimeHandler, validate}

module _ {S : Type 0} where
  -- `h.runtime.Handle`, whose error is passed on
  abbrev pub ask : Runtime S → Command → Map → Exec RuntimeError S Map
  ask rt c m s = (as_other (rt.handle c m s).0, (rt.handle c m s).1)

  unfoldable pub send_command : Request → Command → RuntimeHandler S → Exec RuntimeError S Body
  send_command req command h = do
    data_in ← lift (as_other (unmarshal req.body))
    _ ← lift (validate h request command data_in)
    answer ← ask h.runtime command data_in
    _ ← lift (validate h response command answer)
    pure (marshal answer)
