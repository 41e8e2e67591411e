-- ===== src/Runtime/Handler/Plain.antt =====
-- What the bodies of the responses of `Handle` spell.
use shimmy_wasm_go.Base.{◌≡◌, ◌⊎◌, inl, inr, none, some, arith, Option-cases, Bool-cases}
use mathlib.Core.Path.{subst}
use shimmy_wasm_go.Exec.{Result, ok, err, panics, Returned-cases, Result-cases}
use shimmy_wasm_go.Json.{Fields, Map, object, put, get, as_object, entries}
use shimmy_wasm_go.Json.Codec.{Body, unmarshal, empty_body, marshal}
use shimmy_wasm_go.Json.Plain.{SpellsObject, marshal-SpellsObject}
use shimmy_wasm_go.Runtime.Command.{Command, parse_command, get_command}
use shimmy_wasm_go.Runtime.Errors.{RuntimeError, as_other}
use shimmy_wasm_go.Runtime.Response.{Request, Response, new_response, new_error_response}
use shimmy_wasm_go.Runtime.Send.{send_command}
use shimmy_wasm_go.Runtime.Cases.{process_eval}
use shimmy_wasm_go.Runtime.Validate.{RuntimeHandler}
use shimmy_wasm_go.Runtime.Handler.{handle, handle_request, run_command, finish, is_eval}

abbrev pub IsAnswer : Body → Type 0
IsAnswer b = (b ≡ empty_body) ⊎ SpellsObject b

some_of_result :
    (m : Map) (f : Fields)
    → as_object (get "result" (entries m)) ≡ some f
    → SpellsObject (marshal m)
unfolding get
some_of_result none f p = cc
some_of_result (some m) f p = marshal-SpellsObject m

error-SpellsObject : (e : RuntimeError) → SpellsObject (new_error_response e).body
unfolding new_error_response new_response
error-SpellsObject e = marshal-SpellsObject _

module _ {S : Type 0} (h : RuntimeHandler S) (req : Request) where
  finish-IsAnswer :
      (c : Command) (m : Map) (o : Result RuntimeError Map) (s : S) (b : Body) (t : S)
      → finish h req c m o s ≡ (ok b, t)
      → IsAnswer b
  unfolding finish
  finish-IsAnswer c m (err e) s b t p = cc
  finish-IsAnswer c m panics s b t p = cc
  finish-IsAnswer c m (ok r) s b t p = elim (Option-cases (as_object (get "result" (entries r)))) [
    | inl q ↦ inl (ground arith)
    | inr (result, q) ↦ elim (Bool-cases (is_eval c)) [
      | inl e ↦ elim (Returned-cases (process_eval h req c (entries m) result s)) [
        | inl (f, u, k) ↦ inr (
            subst SpellsObject (ground arith)
              (marshal-SpellsObject (put "result" (object f) (entries r))))
        | inr k ↦ ground arith
      ]
      | inr e ↦ inr (subst SpellsObject (ground arith) (some_of_result r result q))
    ]
  ]

  run_command-IsAnswer :
      (c : Command) (s : S) (b : Body) (t : S) → run_command h req c s ≡ (ok b, t) → IsAnswer b
  unfolding run_command
  run_command-IsAnswer c s b t p = elim (Returned-cases (send_command req c h s)) [
    | inl (d, u, q) ↦ elim (Result-cases (as_other (unmarshal req.body))) [
      | inl (m, r) ↦ finish-IsAnswer c m (as_other (unmarshal d)) u b t (rw (q, r) at p)
      | inr r ↦ ground arith
    ]
    | inr q ↦ ground arith
  ]

  handle_request-IsAnswer :
      (s : S) (b : Body) (t : S) → handle_request h req s ≡ (ok b, t) → IsAnswer b
  unfolding handle_request
  handle_request-IsAnswer s b t p = elim (Option-cases (parse_command (get_command req.header).0)) [
    | inl q ↦ ground arith
    | inr (c, q) ↦ run_command-IsAnswer c s b t (ground arith)
  ]

  -- The body of every response of the runtime handler, an error included, spells a JSON object, or
  -- it has no bytes.
  pub handle-IsAnswer :
      (s : S) (r : Response) (t : S) → handle h req s ≡ (some r, t) → IsAnswer r.body
  unfolding handle new_response
  handle-IsAnswer s r t p = elim (Returned-cases (handle_request h req s)) [
    | inl (b, u, q) ↦ subst IsAnswer (ground arith) (handle_request-IsAnswer s b u q)
    | inr (inl (e, u, q)) ↦ inr (
        let same : new_error_response e ≡ r = ground arith in
        subst (λ (x : Response). SpellsObject x.body) same (error-SpellsObject e))
    | inr (inr (u, q)) ↦ cc (rw q at p)
  ]
