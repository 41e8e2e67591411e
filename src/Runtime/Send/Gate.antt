-- ===== src/Runtime/Send/Gate.antt =====
-- `SendCommand` lets only valid requests reach the evaluation function, and only valid answers out.
use shimmy_wasm_go.Base.{◌≡◌, ◌≢◌, arith, inl, inr}
use shimmy_wasm_go.Exec.{ok, err, Returned-cases, Result-cases}
use shimmy_wasm_go.Json.{Map}
use shimmy_wasm_go.Json.Codec.{Body, unmarshal, marshal}
use shimmy_wasm_go.Runtime.Command.{Command}
use shimmy_wasm_go.Runtime.Errors.{RuntimeError, request, response, command_not_found}
use shimmy_wasm_go.Runtime.Response.{Request}
use shimmy_wasm_go.Runtime.Validate.{RuntimeHandler, validate}
use shimmy_wasm_go.Runtime.Validate.Laws.{validate-ne-command_not_found}
use shimmy_wasm_go.Runtime.Send.{send_command}

module _ {S : Type 0} (h : RuntimeHandler S) (req : Request) (c : Command) where
  -- A body comes out of `SendCommand` only if the request was valid, the evaluation function
  -- answered it, and the answer was valid; it is what the answer is written as.
  pub send_command-valid :
      (s : S) (body : Body) (t : S)
      → send_command req c h s ≡ (ok body, t)
      → (m : Map) × (answer : Map) × (unmarshal req.body ≡ ok m)
        × (validate h request c m ≡ ok tt)
        × (h.runtime.handle c m s ≡ (ok answer, t))
        × (validate h response c answer ≡ ok tt)
        × (body ≡ marshal answer)
  unfolding send_command
  send_command-valid s body t e = elim (Result-cases (unmarshal req.body)) [
    | inr p ↦ ground arith
    | inl (m, p) ↦ elim (Returned-cases (h.runtime.handle c m s)) [
      | inr q ↦ ground arith
      | inl (answer, u, q) ↦ (m, answer, p, ground arith, ground arith, ground arith, ground arith)
    ]
  ]

  -- A request that is malformed or not valid does not reach the evaluation function: its state
  -- stays, and the error is that of the validation.
  pub send_command_refuses :
      (s : S) (m : Map) (e : RuntimeError)
      → unmarshal req.body ≡ ok m
      → validate h request c m ≡ err e
      → send_command req c h s ≡ (err e, s)
  unfolding send_command
  send_command_refuses s m e p q = ground arith

  pub send_command-ne-command_not_found :
      (s t : S) → send_command req c h s ≢ (err command_not_found, t)
  unfolding send_command
  send_command-ne-command_not_found s t e = grind (arith, validate-ne-command_not_found)
