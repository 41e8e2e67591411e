-- ===== src/Runtime/Cases/Warnings.antt =====
-- Which cases the warnings of `FindFirstMatchingCase` and `GetCaseFeedback` are about.
use shimmy_wasm_go.Base.{
  ℕ, suc, ◌<◌, ◌≤◌, ◌≡◌, refl, inl, inr, Option, List, [], ◌∷◌, arith, All, All-append,
  Option-cases, append-nil,
}
use shimmy_wasm_go.Exec.{Result, ok, err, panics, Returned-cases}
use shimmy_wasm_go.Json.{CaseWarning, Items, Fields, items_length}
use shimmy_wasm_go.Json.Codec.{Body}
use shimmy_wasm_go.Runtime.Command.{Command}
use shimmy_wasm_go.Runtime.Errors.{RuntimeError}
use shimmy_wasm_go.Runtime.Response.{Request}
use shimmy_wasm_go.Runtime.Validate.{RuntimeHandler}
use shimmy_wasm_go.Runtime.Evaluate.{CaseResult, evaluate_case, evaluate, judge, recovered}
use shimmy_wasm_go.Runtime.Cases.{
  Search, note, warning_list, find_first_matching_case, get_case_feedback, pick, override,
  multiple_warning,
}
use shimmy_wasm_go.Runtime.Cases.First.{
  Tried, here, wrong, AtMostOne, find_first_matching_case-StopsAtFirst,
  find_first_matching_case-AtMostOne, Tried-no_match,
}

-- The warning of a result, if it has one, names the case `index`.
abbrev pub Names : ℕ → CaseResult → Type 0
Names index r = All (λ w. w.case ≡ index) (warning_list r.warning)

judge-Names :
    (index : ℕ) (o : Result RuntimeError Body) {r : CaseResult}
    → judge index o ≡ ok r
    → Names index r
unfolding judge
judge-Names index (ok body) h = ground arith
judge-Names index (err e) h = ground arith
judge-Names index panics h = cc

recovered-Names :
    (index : ℕ) (case : Fields) (o : Result RuntimeError CaseResult)
    → ((r : CaseResult) → o ≡ ok r → Names index r)
    → (r : CaseResult × Fields) → recovered index case o ≡ ok r
    → Names index r.0
unfolding recovered
recovered-Names index case (ok x) k r h = ground (arith, k x)
recovered-Names index case (err e) k r h = cc
recovered-Names index case panics k r h = ground arith

module _ {S : Type 0} (h : RuntimeHandler S) (req : Request) (command : Command) where
  evaluate-Names :
      (combined case : Fields) (index : ℕ) (s : S) (r : CaseResult) (t : S)
      → evaluate h req command combined case index s ≡ (ok r, t)
      → Names index r
  unfolding evaluate
  evaluate-Names combined case index s r t e = grind (arith, judge-Names)

  evaluate_case-Names :
      (params case : Fields) (index : ℕ) (s : S) (r : CaseResult × Fields) (t : S)
      → evaluate_case h req command params case index s ≡ (ok r, t)
      → Names index r.0
  unfolding evaluate_case
  evaluate_case-Names params case index s r t e = grind (arith, recovered-Names, evaluate-Names)

abbrev pub Below : ℕ → List CaseWarning → Type 0
Below n = All (λ w. w.case < n)

Below-mono : (n m : ℕ) (ws : List CaseWarning) → n ≤ m → Below n ws → Below m ws
Below-mono n m [] le b = tt
Below-mono n m (w ∷ ws) le b = (omega arith, Below-mono n m ws le b.1)

Below-of_Names : (i : ℕ) (r : CaseResult) → Names i r → Below (suc i) (warning_list r.warning)
Below-of_Names i r n = elim (Option-cases r.warning) [
  | inl e ↦ rw e tt
  | inr (w, e) ↦ rw e (let n' = rw e at n in (omega arith, tt))
]

Below-note :
    (v : Search) (i : ℕ) (r : CaseResult × Fields)
    → Below i v.warnings
    → Names i r.0
    → Below (suc i) (note v i r).warnings
Below-note v i r b n =
    All-append (λ w. w.case < suc i) v.warnings (warning_list r.0.warning)
      (Below-mono i (suc i) v.warnings (omega arith) b) (Below-of_Names i r.0 n)

module _ {S : Type 0} (h : RuntimeHandler S) (req : Request) (command : Command)
    (params : Fields) where
  Tried-Below :
      {v : Search} {i : ℕ} {rest : Items} {s : S} {w : Search} {j : ℕ} {later : Items} {t : S}
      → Below i v.warnings
      → Tried h req command params v i rest s w j later t
      → Below j w.warnings
  Tried-Below b here = b
  Tried-Below b (wrong {w = w} {j = j} {t = t} {u = u} {r = r} d p bad) =
      Below-note w j r (Tried-Below b d) (evaluate_case-Names h req command _ _ j t r u p)

  -- Each warning is about one of the cases.
  pub find_first_matching_case-Below :
      (cases : Items) (s : S) (w : Search) (t : S)
      → find_first_matching_case h req command params cases s ≡ (ok w, t)
      → Below (items_length cases) w.warnings
  find_first_matching_case-Below cases s w t e =
      elim (find_first_matching_case-StopsAtFirst h req command params cases s w t e) [
        | inl (j, d) ↦
            Below-mono j _ w.warnings (omega (arith, (Tried-no_match h req command params d).2))
              (Tried-Below tt d)
        | inr (v, j, case, later, u, r, d, p, good, q) ↦ rw q (
            Below-mono (suc j) _ (note v j r).warnings
              (omega (arith, (Tried-no_match h req command params d).2))
              (Below-note v j r (Tried-Below tt d)
                (evaluate_case-Names h req command _ case j u r t p)))
      ]

  multiple_warning_one : (i : ℕ) → multiple_warning (i ∷ []) ≡ []
  unfolding multiple_warning
  multiple_warning_one i = refl

  pick-warnings :
      (w : Search) (n : ℕ) (s : S) (r : Option Fields × List CaseWarning) (t : S)
      → AtMostOne n w
      → pick w s ≡ (ok r, t)
      → r.1 ≡ w.warnings
  unfolding pick override
  pick-warnings w n s r t (inl (m, f)) e = ground arith
  pick-warnings w n s r t (inr (j, f, m, g, l)) e =
      ground (arith, multiple_warning_one j, append-nil w.warnings)

  -- The warnings of `GetCaseFeedback` are those of the cases: the one about several matches is
  -- never added.
  pub get_case_feedback-warnings :
      (cases : Items) (s : S) (r : Option Fields × List CaseWarning) (t : S)
      → get_case_feedback h req command params cases s ≡ (ok r, t)
      → (w : Search) × (u : S) × (find_first_matching_case h req command params cases s ≡ (ok w, u))
        × (r.1 ≡ w.warnings)
        × Below (items_length cases) r.1
  unfolding get_case_feedback
  get_case_feedback-warnings cases s r t e =
      elim (Returned-cases (find_first_matching_case h req command params cases s)) [
        | inl (w, u, p) ↦
            let q =
              pick-warnings w _ u r t
                (find_first_matching_case-AtMostOne h req command params cases s w u p)
                (rw p at e) in
            (w, u, p, q, rw q (find_first_matching_case-Below cases s w u p))
        | inr (inl (x, u, p)) ↦ cc (rw p at e)
        | inr (inr (u, p)) ↦ cc (rw p at e)
      ]
