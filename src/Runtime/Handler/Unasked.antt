-- ===== src/Runtime/Handler/Unasked.antt =====
-- Which status tells that the evaluation function was not asked.
use shimmy_wasm_go.Base.{
  ◌≡◌, ◌⊎◌, inl, inr, refl, sym, ◌∙◌, some, arith, List, Option-cases, Bool-cases, str_eq,
}
use mathlib.Core.Path.{subst}
use shimmy_wasm_go.Exec.{Error, Result, ok, err, panics, Returned-cases, Result-cases}
use shimmy_wasm_go.Json.{Map}
use shimmy_wasm_go.Json.Codec.{unmarshal}
use shimmy_wasm_go.Runtime.Command.{Command, parse_command, get_command}
use shimmy_wasm_go.Runtime.Errors.{
  RuntimeError, invalid_method, validation_error, request, response, FieldError, as_other, other,
}
use shimmy_wasm_go.Runtime.Response.{
  Request, Response, new_response, new_error_response, get_error_status_code,
}
use shimmy_wasm_go.Runtime.Validate.{RuntimeHandler, validate, verdict, get_schema_type}
use shimmy_wasm_go.Runtime.Send.{send_command}
use shimmy_wasm_go.Runtime.Handler.{handle, handle_request, run_command}
use shimmy_wasm_go.Runtime.Handler.Status.{finish-err}

-- another method, or a request that is not valid
abbrev IsRefusal : RuntimeError → Type 0
IsRefusal e = (e ≡ invalid_method) ⊎ ((es : List FieldError) × (e ≡ validation_error request es))

status-IsRefusal :
    (e : RuntimeError)
    → (get_error_status_code e ≡ 405) ⊎ (get_error_status_code e ≡ 422)
    → IsRefusal e
unfolding get_error_status_code
status-IsRefusal invalid_method p = inl refl
status-IsRefusal (validation_error request es) p = inr (es, refl)
status-IsRefusal e p = absurd (ground arith)

other-IsRefusal : (x : Error) → ¬ IsRefusal (other x)
other-IsRefusal x (inl p) = absurd (ground arith)
other-IsRefusal x (inr (es, p)) = absurd (ground arith)

as_other-IsRefusal :
    {A : Type 0} (o : Result Error A) (e : RuntimeError) → as_other o ≡ err e → ¬ IsRefusal e
as_other-IsRefusal (ok a) e p q = absurd (ground arith)
as_other-IsRefusal panics e p q = absurd (ground arith)
as_other-IsRefusal (err x) e p q = other-IsRefusal x (subst IsRefusal (ground arith) q)

verdict-IsRefusal :
    (o : Result Error (List FieldError)) (e : RuntimeError)
    → verdict response o ≡ err e
    → ¬ IsRefusal e
verdict-IsRefusal o e p (inl k) = ground arith
verdict-IsRefusal o e p (inr (es, k)) = ground arith

module _ {S : Type 0} (h : RuntimeHandler S) (req : Request) where
  validate-IsRefusal :
      (c : Command) (m : Map) (e : RuntimeError) → validate h response c m ≡ err e → ¬ IsRefusal e
  unfolding validate get_schema_type
  validate-IsRefusal c m e p (inl k) = ground arith
  validate-IsRefusal c m e p (inr (es, k)) = ground arith

  send_command-IsRefusal :
      (c : Command) (s : S) (e : RuntimeError) (t : S)
      → send_command req c h s ≡ (err e, t)
      → IsRefusal e
      → t ≡ s
  unfolding send_command
  send_command-IsRefusal c s e t p r = elim (Result-cases (unmarshal req.body)) [
    | inr (inl (x, a)) ↦ ground arith
    | inr (inr a) ↦ ground arith
    | inl (m, a) ↦ elim (Result-cases (validate h request c m)) [
      | inr (inl (x, b)) ↦ ground arith
      | inr (inr b) ↦ ground arith
      | inl (_, b) ↦ elim (Returned-cases (h.runtime.handle c m s)) [
        | inr (inl (x, u, k)) ↦ absurd (other-IsRefusal x (subst IsRefusal (ground arith) r))
        | inr (inr (u, k)) ↦ ground arith
        | inl (answer, u, k) ↦ elim (Result-cases (validate h response c answer)) [
          | inl (_, v) ↦ ground arith
          | inr (inl (x, v)) ↦
              absurd (validate-IsRefusal c answer x v (subst IsRefusal (ground arith) r))
          | inr (inr v) ↦ ground arith
        ]
      ]
    ]
  ]

  run_command-IsRefusal :
      (c : Command) (s : S) (e : RuntimeError) (t : S)
      → run_command h req c s ≡ (err e, t)
      → IsRefusal e
      → t ≡ s
  unfolding run_command
  run_command-IsRefusal c s e t p r = elim (Returned-cases (send_command req c h s)) [
    | inl (b, u, q) ↦ elim (Result-cases (as_other (unmarshal req.body))) [
      | inl (m, k) ↦
          let bad : as_other (unmarshal b) ≡ err e =
            finish-err h req c m (as_other (unmarshal b)) u e t (rw (q, k) at p) in
          absurd (as_other-IsRefusal (unmarshal b) e bad r)
      | inr (inl (x, k)) ↦
          absurd (as_other-IsRefusal (unmarshal req.body) x k (subst IsRefusal (ground arith) r))
      | inr (inr k) ↦ absurd (ground arith)
    ]
    | inr (inl (x, u, q)) ↦ send_command-IsRefusal c s e t (ground arith) r
    | inr (inr (u, q)) ↦ absurd (cc (rw q at p))
  ]

  -- If the status of a response is 405 or 422, then the evaluation function was not asked: its state
  -- is what it was before the request.
  pub handle_unasked :
      (s : S) (r : Response) (t : S)
      → handle h req s ≡ (some r, t)
      → (r.status_code ≡ 405) ⊎ (r.status_code ≡ 422)
      → t ≡ s
  unfolding handle handle_request new_response new_error_response
  handle_unasked s r t p q = elim (Bool-cases (str_eq req.method "POST")) [
    | inr a ↦ ground arith
    | inl a ↦ elim (Option-cases (parse_command (get_command req.header).0)) [
      | inl b ↦ ground arith
      | inr (c, b) ↦ elim (Returned-cases (run_command h req c s)) [
        | inl (x, u, k) ↦ absurd (ground arith)
        | inr (inl (e, u, k)) ↦
            let same : u ≡ t = ground arith in
            let status : r.status_code ≡ get_error_status_code e = ground arith in
            let refused = status-IsRefusal e (subst (λ n. (n ≡ 405) ⊎ (n ≡ 422)) status q) in
            sym same ∙ run_command-IsRefusal c s e u k refused
        | inr (inr (u, k)) ↦ absurd (ground arith)
      ]
    ]
  ]
