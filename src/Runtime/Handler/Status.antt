-- ===== src/Runtime/Handler/Status.antt =====
-- The status codes of `Handle`.
use shimmy_wasm_go.Base.{ℕ, ◌≡◌, ◌≢◌, ◌⊎◌, inl, inr, refl, some, arith, Option-cases}
use shimmy_wasm_go.Exec.{Result, ok, err, panics, Returned-cases, Result-cases}
use shimmy_wasm_go.Json.Codec.{Body, unmarshal}
use shimmy_wasm_go.Runtime.Errors.{RuntimeError, command_not_found, as_other}
use shimmy_wasm_go.Runtime.Response.{
  Request, Response, new_response, new_error_response, get_error_status_code,
}
use shimmy_wasm_go.Runtime.Send.{send_command}
use shimmy_wasm_go.Runtime.Validate.{RuntimeHandler}
use shimmy_wasm_go.Runtime.Send.Gate.{send_command-ne-command_not_found}
use shimmy_wasm_go.Json.{Map, get, as_object, entries}
use shimmy_wasm_go.Runtime.Command.{Command, parse_command, get_command}
use shimmy_wasm_go.Runtime.Cases.NoError.{process_eval-ne-err}
use shimmy_wasm_go.Runtime.Handler.{handle, handle_request, run_command, finish}

abbrev pub IsFailure : ℕ → Type 0
IsFailure n = (n ≡ 400) ⊎ (n ≡ 405) ⊎ (n ≡ 422) ⊎ (n ≡ 500)

error_status : (e : RuntimeError) → e ≢ command_not_found → IsFailure (get_error_status_code e)
unfolding get_error_status_code
error_status e n = ground arith

module _ {S : Type 0} (h : RuntimeHandler S) (req : Request) where
  pub finish-err :
      (c : Command) (m : Map) (o : Result RuntimeError Map) (s : S) (e : RuntimeError) (t : S)
      → finish h req c m o s ≡ (err e, t)
      → o ≡ err e
  unfolding finish
  finish-err c m (err x) s e t p = ground arith
  finish-err c m panics s e t p = ground arith
  finish-err c m (ok r) s e t p = elim (Option-cases (as_object (get "result" (entries r)))) [
    | inl q ↦ ground arith
    | inr (result, q) ↦ ground (arith, process_eval-ne-err h req c (entries m) result s e t)
  ]

  unmarshal-err :
      (b : Body) (e : RuntimeError) → as_other (unmarshal b) ≡ err e → e ≢ command_not_found
  unmarshal-err b e p q = ground arith

  run_command-err : (c : Command) (s t : S) → run_command h req c s ≢ (err command_not_found, t)
  unfolding run_command
  run_command-err c s t p = elim (Returned-cases (send_command req c h s)) [
    | inl (b, u, q) ↦ elim (Result-cases (as_other (unmarshal req.body))) [
      | inl (m, r) ↦
          unmarshal-err b command_not_found
            (finish-err c m (as_other (unmarshal b)) u command_not_found t (rw (q, r) at p)) refl
      | inr (inl (x, r)) ↦ unmarshal-err req.body command_not_found (ground arith) refl
      | inr (inr r) ↦ ground arith
    ]
    | inr (inl (x, u, q)) ↦ send_command-ne-command_not_found h req c s t (ground arith)
    | inr (inr (u, q)) ↦ cc (rw q at p)
  ]

  handle_request-err : (s t : S) → handle_request h req s ≢ (err command_not_found, t)
  unfolding handle_request
  handle_request-err s t p = elim (Option-cases (parse_command (get_command req.header).0)) [
    | inl q ↦ ground arith
    | inr (c, q) ↦ ground (arith, run_command-err c s t)
  ]

  -- Whatever the request, the schemas and the evaluation function, the status of a response of the
  -- runtime handler is one of 200, 400, 405, 422 and 500. In particular it is never 404, the status of
  -- a missing command: the command falls back to `eval`.
  pub handle_status :
      (s : S) (r : Response) (t : S)
      → handle h req s ≡ (some r, t)
      → (r.status_code ≡ 200) ⊎ IsFailure r.status_code
  unfolding handle new_response new_error_response
  handle_status s r t p = elim (Returned-cases (handle_request h req s)) [
    | inl (b, u, q) ↦ ground arith
    | inr (inl (e, u, q)) ↦ ground (arith, error_status e (λ k. handle_request-err s u (rw k at q)))
    | inr (inr (u, q)) ↦ cc (rw q at p)
  ]
