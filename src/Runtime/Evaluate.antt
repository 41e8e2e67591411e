-- ===== src/Runtime/Evaluate.antt =====
-- `EvaluateCase` of runtime/handler.go. It returns the case beside its result, since a panic
-- writes a warning into the map of the case, which the request's params share.
use shimmy_wasm_go.Base.{ℕ, String, Bool, false, Option, none, some, if◌then◌else◌}
use shimmy_wasm_go.Exec.{Exec, Result, ok, err, panics, error_text}
use shimmy_wasm_go.Json.{
  object, case_warning, CaseWarning, Fields, end, get, put, merge, has_key, as_object, as_string,
  as_bool, or_null, Map, entries,
}
use shimmy_wasm_go.Json.Codec.{Body, unmarshal, marshal}
use shimmy_wasm_go.Runtime.Command.{Command}
use shimmy_wasm_go.Runtime.Errors.{RuntimeError, runtime_error_text}
use shimmy_wasm_go.Runtime.Response.{Request}
use shimmy_wasm_go.Runtime.Validate.{RuntimeHandler}
use shimmy_wasm_go.Runtime.Send.{send_command}

pub record CaseResult : Type 0 where
  pub is_correct : Bool
  pub feedback : String
  pub warning : Option CaseWarning

abbrev pub zero_result : CaseResult
zero_result = record { is_correct = false; feedback = ""; warning = none }

abbrev pub warn : ℕ → String → CaseResult
warn index message = record zero_result {
  warning = some (record { message = message; case = index });
}

abbrev pub or_false : Option Bool → Bool
or_false none = false
or_false (some b) = b

abbrev pub or_empty : Option String → String
or_empty none = ""
or_empty (some s) = s

abbrev read_answer : ℕ → Option Fields → CaseResult
read_answer index none = warn index "failed to unmarshal response data"
read_answer index (some result) = record {
  is_correct = or_false (as_bool (get "is_correct" result));
  feedback = or_empty (as_string (get "feedback" result));
  warning = none;
}

-- what an error of `json.Unmarshal` leaves is the nil map
abbrev pub or_nil {ℓ} : {E : Type ℓ} → Result E Map → Fields
or_nil (ok m) = entries m
or_nil _ = end

-- the end of `EvaluateCase`, on what `SendCommand` returned
unfoldable pub judge : ℕ → Result RuntimeError Body → Result RuntimeError CaseResult
unfolding unmarshal
judge index (err e) = ok (warn index (runtime_error_text e))
judge index panics = panics
judge index (ok body) = ok (read_answer index (as_object (get "result" (or_nil (unmarshal body)))))

-- the deferred `recover`: the result is the zero value, and the case gets a warning
unfoldable pub recovered :
    ℕ → Fields → Result RuntimeError CaseResult → Result RuntimeError (CaseResult × Fields)
recovered index case (ok r) = ok (r, case)
recovered index case (err e) = err e
recovered index case panics = ok (
  zero_result,
  put "warning"
      (case_warning (record {
        case = index;
        message = "An exception was raised while executing the evaluation function.";
      }))
      case,
)

abbrev pub combine : Fields → Option Fields → Fields
combine params none = params
combine params (some m) = merge params m

-- The params and the answer of a case in place of those of the request.
unfoldable pub case_request : Request → Fields → Fields → Fields → Request
case_request req body combined case = record req {
  body =
      marshal
        (some (put "params" (object combined) (put "answer" (or_null (get "answer" case)) body)));
}

module _ {S : Type 0} (h : RuntimeHandler S) (req : Request) (command : Command) where
  -- the part of `EvaluateCase` that the `recover` covers; a write into the nil map panics
  unfoldable pub evaluate : Fields → Fields → ℕ → Exec RuntimeError S CaseResult
  unfolding judge
  evaluate combined case index s = elim (unmarshal req.body) [
    | err e ↦ (ok (warn index (error_text e)), s)
    | panics ↦ (panics, s)
    | ok none ↦ (panics, s)
    | ok (some body) ↦
        let sent = send_command (case_request req body combined case) command h s in
        (judge index sent.0, sent.1)
  ]

  unfoldable pub evaluate_case : Fields → Fields → ℕ → Exec RuntimeError S (CaseResult × Fields)
  unfolding evaluate recovered
  evaluate_case params case index s =
      if has_key "answer" case
      then (if has_key "feedback" case
          then (let run =
                evaluate (combine (merge end params) (as_object (get "params" case))) case index
                  s in
              (recovered index case run.0, run.1))
          else (ok (warn index "Missing feedback field", case), s))
      else (ok (warn index "Missing answer field", case), s)
