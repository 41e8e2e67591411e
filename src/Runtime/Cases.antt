-- ===== src/Runtime/Cases.antt =====
-- `ProcessEval`, `GetCaseFeedback` and `FindFirstMatchingCase` of runtime/handler.go. The slice of
-- cases and the maps in it are shared: what `EvaluateCase` writes into a case is seen in the params
-- of the next case, so the slice is passed along.
pub mod First
pub mod NoError
pub mod Warnings
pub mod Result
use shimmy_wasm_go.Base.{
  ℕ, suc, ◌+◌, String, Bool, true, false, Option, none, some, List, [], ◌∷◌, ◌++◌, map, length, ltb,
  if◌then◌else◌,
}
use shimmy_wasm_go.Base.Decimal.{decimal_text}
use shimmy_wasm_go.Exec.{Exec, pure, panic, ◌>>=◌, ◌<>◌}
use shimmy_wasm_go.Json.{
  Value, bool, float64, int, string, slice, object, case_warnings, CaseWarning, Items, nil, cons,
  Fields, end, get, put, as_object, as_slice, as_string, as_float64, or_null, item, items_length,
  set_item, truncate, ℤ, pos, Map, entries, Float64,
}
use shimmy_wasm_go.Runtime.Command.{Command}
use shimmy_wasm_go.Runtime.Errors.{RuntimeError}
use shimmy_wasm_go.Runtime.Response.{Request}
use shimmy_wasm_go.Runtime.Validate.{RuntimeHandler}
use shimmy_wasm_go.Runtime.Evaluate.{CaseResult, evaluate_case}

abbrev pub warning_list : Option CaseWarning → List CaseWarning
warning_list none = []
warning_list (some w) = w ∷ []

-- The variables of the loop in `FindFirstMatchingCase`, and the cases as they are after it.
pub record Search : Type 0 where
  pub matches : List ℕ
  pub feedback : List String
  pub warnings : List CaseWarning
  pub cases : Items

abbrev pub with_case : Items → Fields → Fields
with_case cases params = put "cases" (slice cases) params

-- the loop's variables after the result of the case at `index`
abbrev pub note : Search → ℕ → CaseResult × Fields → Search
note v index (r, case) = record v {
  warnings = v.warnings ++ warning_list r.warning;
  cases = set_item v.cases index (object case);
}

abbrev pub found : Search → ℕ → CaseResult → Search
found v index r = record v {
  matches = v.matches ++ index ∷ [];
  feedback = v.feedback ++ r.feedback ∷ [];
}

-- the variables before the loop
abbrev pub start : Items → Search
start cases = record { matches = []; feedback = []; warnings = []; cases = cases }

module _ {S : Type 0} (h : RuntimeHandler S) (req : Request) (command : Command)
    (params : Fields) where
  -- `for index, c := range cases`; the last argument holds the cases from `index` on
  unfoldable pub find_loop : Search → ℕ → Items → Exec RuntimeError S Search
  find_loop v index nil = pure v
  find_loop v index (cons (object case) rest) =
      evaluate_case h req command (with_case v.cases params) case index >>= λ r.
      let v' = note v index r in
      let later = find_loop v' (suc index) rest in
      if (r.0).is_correct then pure (found v' index r.0) else later
  find_loop v index (cons c rest) = panic

  unfoldable pub find_first_matching_case : Items → Exec RuntimeError S Search
  unfolding find_loop
  find_first_matching_case cases = find_loop (start cases) 0 cases

-- `matchParams["override_eval_feedback"] == true`
abbrev pub is_true : Option Value → Bool
is_true (some (bool true)) = true
is_true _ = false

abbrev pub overrides : Option Fields → Bool
overrides none = false
overrides (some p) = is_true (get "override_eval_feedback" p)

abbrev pub join : List String → String
join [] = ""
join (s ∷ []) = s
join (s ∷ t ∷ ss) = s <> ", " <> join (t ∷ ss)

abbrev pub ids_text : List ℕ → String
ids_text [] = ""
ids_text (i ∷ []) = decimal_text i
ids_text (i ∷ j ∷ is) = decimal_text i <> ", " <> ids_text (j ∷ is)

unfoldable pub multiple_warning : List ℕ → List CaseWarning
unfolding decimal_text
multiple_warning matches =
    if ltb 1 (length matches)
    then record {
      message =
          "Cases "
          <> ids_text matches
          <> " were matched. Only the first one's feedback was returned";
      case = 0;
    }
      ∷ []
    else []

module _ {S : Type 0} where
  -- The override of the feedback. Both the assertion to a text and `feedback[0]` may panic.
  unfoldable pub override : Fields → List String → Exec RuntimeError S Fields
  override match feedback =
      if overrides (as_object (get "params" match))
      then (elim (as_string (get "feedback" match)) [
        | none ↦ panic
        | some match_feedback ↦ elim feedback [
          | [] ↦ panic
          | eval_feedback ∷ _ ↦
              pure (put "feedback" (string (match_feedback <> "<br />" <> eval_feedback)) match)
        ]
      ])
      else pure match

  unfoldable pub pick : Search → Exec RuntimeError S (Option Fields × List CaseWarning)
  unfolding override multiple_warning
  pick v = elim v.matches [
    | [] ↦ pure (none, v.warnings)
    | i ∷ more ↦ elim (as_object (item v.cases i)) [
      | none ↦ panic
      | some match ↦ do
        match' ← override (put "id" (int (pos i)) match) v.feedback
        pure (some match', v.warnings ++ multiple_warning (i ∷ more))
    ]
  ]

  unfoldable pub get_case_feedback :
      RuntimeHandler S
      → Request
      → Command
      → Fields
      → Items
      → Exec RuntimeError S (Option Fields × List CaseWarning)
  unfolding find_first_matching_case pick
  get_case_feedback h req command params cases =
      find_first_matching_case h req command params cases >>= pick

-- `int(mark) == 1`
abbrev pub is_one : ℤ → Bool
is_one (pos (suc ℕ.zero)) = true
is_one _ = false

abbrev pub set_mark : Option Float64 → Fields → Fields
set_mark none result = result
set_mark (some mark) result = put "is_correct" (bool (is_one (truncate mark))) result

abbrev pub set_match : Option Fields → Fields → Fields
set_match none result = result
set_match (some match) result = set_mark (as_float64 (get "mark" match)) (
    put "matched_case" (or_null (get "id" match))
      (put "feedback" (or_null (get "feedback" match)) result))

abbrev pub set_warnings : List CaseWarning → Fields → Fields
set_warnings [] result = result
set_warnings (w ∷ ws) result = put "warnings" (case_warnings (w ∷ ws)) result

-- `result["is_correct"] == false`
abbrev pub is_false : Option Value → Bool
is_false (some (bool false)) = true
is_false _ = false

abbrev pub or_end : Option Fields → Fields
or_end none = end
or_end (some m) = m

module _ {S : Type 0} (h : RuntimeHandler S) (req : Request) (command : Command) where
  -- the branch `ok && len(cases) > 0`
  unfoldable pub process_cases : Fields → Option Items → Fields → Exec RuntimeError S Fields
  unfolding get_case_feedback truncate
  process_cases params none result = pure result
  process_cases params (some nil) result = pure result
  process_cases params (some (cons c cs)) result =
      get_case_feedback h req command params (cons c cs) >>= λ r.
      pure (set_match r.0 (set_warnings r.1 result))

  -- `ProcessEval`, which returns the result that it changes in place
  unfoldable pub process_eval : Fields → Fields → Exec RuntimeError S Fields
  unfolding process_cases
  process_eval req_body result =
      let params = or_end (as_object (get "params" req_body)) in
      if is_false (get "is_correct" result)
      then process_cases params (as_slice (get "cases" params)) result
      else pure result
