-- ===== src/Runtime/Cases/NoError.antt =====
-- `ProcessEval` has no error of its own: what goes wrong with a case becomes a warning.
use shimmy_wasm_go.Base.{ℕ, suc, ◌≢◌, inl, inr, Option, none, some, arith, Bool-cases}
use shimmy_wasm_go.Exec.{Result, err, Returned-cases}
use shimmy_wasm_go.Json.{object, Items, nil, cons, Fields, get, as_object, as_slice}
use shimmy_wasm_go.Json.Codec.{Body}
use shimmy_wasm_go.Runtime.Command.{Command}
use shimmy_wasm_go.Runtime.Errors.{RuntimeError}
use shimmy_wasm_go.Runtime.Response.{Request}
use shimmy_wasm_go.Runtime.Validate.{RuntimeHandler}
use shimmy_wasm_go.Runtime.Evaluate.{judge, recovered, evaluate, evaluate_case}
use shimmy_wasm_go.Runtime.Cases.{
  Search, start, with_case, note, find_loop, find_first_matching_case, pick, override,
  get_case_feedback, process_cases, process_eval, or_end,
}

judge-ne-err : (i : ℕ) (o : Result RuntimeError Body) (e : RuntimeError) → judge i o ≢ err e
unfolding judge
judge-ne-err i o e p = ground arith

pick-ne-err : {S : Type 0} (w : Search) (s : S) (e : RuntimeError) (t : S) → pick w s ≢ (err e, t)
unfolding pick override
pick-ne-err w s e t p = ground arith

module _ {S : Type 0} (h : RuntimeHandler S) (req : Request) (c : Command) where
  evaluate-ne-err :
      (combined case : Fields) (i : ℕ) (s : S) (e : RuntimeError) (t : S)
      → evaluate h req c combined case i s ≢ (err e, t)
  unfolding evaluate
  evaluate-ne-err combined case i s e t p = grind (arith, judge-ne-err)

  evaluate_case-ne-err :
      (params case : Fields) (i : ℕ) (s : S) (e : RuntimeError) (t : S)
      → evaluate_case h req c params case i s ≢ (err e, t)
  unfolding evaluate_case recovered
  evaluate_case-ne-err params case i s e t p = grind (arith, evaluate-ne-err)

  find_loop-ne-err :
      (params : Fields) (v : Search) (i : ℕ) (rest : Items) (s : S) (e : RuntimeError) (t : S)
      → find_loop h req c params v i rest s ≢ (err e, t)
  unfolding find_loop
  find_loop-ne-err params v i nil s e t p = cc
  find_loop-ne-err params v i (cons (object case) rest) s e t p =
      elim (Returned-cases (evaluate_case h req c (with_case v.cases params) case i s)) [
        | inl (r, u, q) ↦ elim (Bool-cases (r.0).is_correct) [
          | inl good ↦ ground arith
          | inr bad ↦ find_loop-ne-err params (note v i r) (suc i) rest u e t (ground arith)
        ]
        | inr (inl (x, u, q)) ↦ evaluate_case-ne-err _ case i s x u q
        | inr (inr (u, q)) ↦ cc (rw q at p)
      ]
  find_loop-ne-err params v i (cons _ rest) s e t p = cc

  get_case_feedback-ne-err :
      (params : Fields) (cases : Items) (s : S) (e : RuntimeError) (t : S)
      → get_case_feedback h req c params cases s ≢ (err e, t)
  unfolding get_case_feedback find_first_matching_case
  get_case_feedback-ne-err params cases s e t p =
      elim (Returned-cases (find_loop h req c params (start cases) 0 cases s)) [
        | inl (w, u, q) ↦ pick-ne-err w u e t (rw q at p)
        | inr (inl (x, u, q)) ↦ find_loop-ne-err params (start cases) 0 cases s x u q
        | inr (inr (u, q)) ↦ cc (rw q at p)
      ]

  process_cases-ne-err :
      (params : Fields) (o : Option Items) (result : Fields) (s : S) (e : RuntimeError) (t : S)
      → process_cases h req c params o result s ≢ (err e, t)
  unfolding process_cases
  process_cases-ne-err params none result s e t p = cc
  process_cases-ne-err params (some nil) result s e t p = cc
  process_cases-ne-err params (some (cons x xs)) result s e t p =
      ground (arith, get_case_feedback-ne-err params (cons x xs) s e t)

  -- `ProcessEval` returns no error.
  pub process_eval-ne-err :
      (body result : Fields) (s : S) (e : RuntimeError) (t : S)
      → process_eval h req c body result s ≢ (err e, t)
  unfolding process_eval
  process_eval-ne-err body result s e t p = ground (
    arith,
    process_cases-ne-err (or_end (as_object (get "params" body)))
        (as_slice (get "cases" (or_end (as_object (get "params" body))))) result s e t,
  )
