-- ===== src/Runtime/Keeps.antt =====
-- The handler touches the state of the evaluation function through `Runtime.Handle` alone: what each
-- message keeps, each request keeps.
use shimmy_wasm_go.Base.{ℕ, suc, Option, none, some, arith, Bool-cases, inl, inr}
use shimmy_wasm_go.Exec.{Exec, Result, ok, err, panics, ◌>>=◌, continue}
use shimmy_wasm_go.Json.{Items, nil, cons, object, Fields, Map}
use shimmy_wasm_go.Json.Codec.{unmarshal}
use shimmy_wasm_go.Runtime.Command.{Command}
use shimmy_wasm_go.Runtime.Errors.{request, response, RuntimeError, as_other}
use shimmy_wasm_go.Runtime.Response.{Request}
use shimmy_wasm_go.Runtime.Validate.{RuntimeHandler, validate}
use shimmy_wasm_go.Runtime.Send.{send_command}
use shimmy_wasm_go.Runtime.Evaluate.{evaluate, evaluate_case}
use shimmy_wasm_go.Runtime.Cases.{
  Search, find_loop, find_first_matching_case, get_case_feedback, pick, override, process_cases,
  process_eval, start, with_case, note,
}
use shimmy_wasm_go.Runtime.Handler.{finish, run_command, handle_request, handle}

-- A run from a state with `P` ends in one, an error or a panic included.
abbrev pub Keeps : {E S A : Type 0} → (S → Type 0) → Exec E S A → Type 0
Keeps {S} P m = (s : S) → P s → P (m s).1

continue-Keeps :
    {E S A B : Type 0} (P : S → Type 0) (r : Result E A) (f : A → Exec E S B)
    → ((a : A) → Keeps P (f a))
    → Keeps P (continue r f)
continue-Keeps P (ok a) f k s p = k a s p
continue-Keeps P (err e) f k s p = p
continue-Keeps P panics f k s p = p

bind-Keeps :
    {E S A B : Type 0} (P : S → Type 0) (m : Exec E S A) (f : A → Exec E S B)
    → Keeps P m
    → ((a : A) → Keeps P (f a))
    → Keeps P (m >>= f)
bind-Keeps P m f k l s p = continue-Keeps P (m s).0 f l (m s).1 (k s p)

pick-state : {S : Type 0} (P : S → Type 0) (v : Search) → Keeps P (pick v)
unfolding pick override
pick-state P v s p = ground arith

module _ {S : Type 0} (P : S → Type 0) (h : RuntimeHandler S)
    (kept : (c : Command) (m : Map) → Keeps P (h.runtime.handle c m)) where
  send_command-Keeps : (req : Request) (c : Command) → Keeps P (send_command req c h)
  unfolding send_command
  send_command-Keeps req c s p =
      continue-Keeps P (as_other (unmarshal req.body)) _
        (λ m s1 p1.
          continue-Keeps P (validate h request c m) _
            (λ _ s2 p2.
              continue-Keeps P (as_other (h.runtime.handle c m s2).0) _
                (λ answer s3 p3.
                  continue-Keeps P (validate h response c answer) _ (λ _ s4 p4. p4) s3 p3)
                (h.runtime.handle c m s2).1 (kept c m s2 p2))
            s1 p1)
        s p

  evaluate-Keeps :
      (req : Request) (c : Command) (combined case : Fields) (index : ℕ)
      → Keeps P (evaluate h req c combined case index)
  unfolding evaluate
  evaluate-Keeps req c combined case index s p = grind (arith, send_command-Keeps)

  evaluate_case-Keeps :
      (req : Request) (c : Command) (params case : Fields) (index : ℕ)
      → Keeps P (evaluate_case h req c params case index)
  unfolding evaluate_case
  evaluate_case-Keeps req c params case index s p = grind (arith, evaluate-Keeps)

  find_loop-Keeps :
      (req : Request) (c : Command) (params : Fields) (v : Search) (index : ℕ) (cases : Items)
      → Keeps P (find_loop h req c params v index cases)
  unfolding find_loop
  find_loop-Keeps req c params v index nil s p = p
  find_loop-Keeps req c params v index (cons (object case) rest) s p =
      bind-Keeps P (evaluate_case h req c (with_case v.cases params) case index) _
        (evaluate_case-Keeps req c (with_case v.cases params) case index)
        (λ r s1 p1. elim (Bool-cases (r.0).is_correct) [
          | inl e ↦ rw e p1
          | inr e ↦ rw e (find_loop-Keeps req c params (note v index r) (suc index) rest s1 p1)
        ])
        s p
  find_loop-Keeps req c params v index (cons x rest) s p = p

  get_case_feedback-Keeps :
      (req : Request) (c : Command) (params : Fields) (cases : Items)
      → Keeps P (get_case_feedback h req c params cases)
  unfolding get_case_feedback find_first_matching_case
  get_case_feedback-Keeps req c params cases =
      bind-Keeps P (find_loop h req c params (start cases) 0 cases) pick
        (find_loop-Keeps req c params (start cases) 0 cases) (λ v s p. pick-state P v s p)

  process_cases-Keeps :
      (req : Request) (c : Command) (params : Fields) (o : Option Items) (result : Fields)
      → Keeps P (process_cases h req c params o result)
  unfolding process_cases
  process_cases-Keeps req c params none result s p = p
  process_cases-Keeps req c params (some nil) result s p = p
  process_cases-Keeps req c params (some (cons x xs)) result s p =
      bind-Keeps P (get_case_feedback h req c params (cons x xs)) _
        (get_case_feedback-Keeps req c params (cons x xs)) (λ r s1 p1. p1) s p

  process_eval-Keeps :
      (req : Request) (c : Command) (body result : Fields)
      → Keeps P (process_eval h req c body result)
  unfolding process_eval
  process_eval-Keeps req c body result s p = grind (arith, process_cases-Keeps)

  finish-Keeps :
      (req : Request) (c : Command) (body : Map) (r : Result RuntimeError Map)
      → Keeps P (finish h req c body r)
  unfolding finish
  finish-Keeps req c body r s p = grind (arith, process_eval-Keeps)

  run_command-Keeps : (req : Request) (c : Command) → Keeps P (run_command h req c)
  unfolding run_command
  run_command-Keeps req c s p = grind (arith, send_command-Keeps, finish-Keeps)

  -- What each message to the evaluation function keeps of its state, each request keeps, whatever
  -- the method, the command, the body and the cases.
  pub handle-Keeps : (req : Request) (s : S) → P s → P (handle h req s).1
  unfolding handle handle_request
  handle-Keeps req s p = grind (arith, run_command-Keeps)
