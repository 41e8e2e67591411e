-- ===== src/Runtime/MuEd/Feedback.antt =====
-- The feedback that results of the evaluation function are turned into.
use shimmy_wasm_go.Base.{String, ◌≡◌, refl, Option, none, some, arith, str_eq, if◌then◌else◌}
use shimmy_wasm_go.Json.{
  Value, null, string, int, strings, Fields, get, as_bool, as_string, as_float64, as_slice,
  truncate,
}
use shimmy_wasm_go.Json.Laws.{get-put}
use shimmy_wasm_go.Runtime.MuEd.{put_some, points, string_tags, no_feedback, evaluate_feedback}

-- the value of an optional field
abbrev pub value_of {ℓ} : {A : Type ℓ} → (A → Value) → Option A → Option Value → Option Value
value_of f none before = before
value_of f (some a) before = some (f a)

get-put_some {ℓ} :
    {A : Type ℓ} (k j : String) (f : A → Value) (o : Option A) (m : Fields)
    → get j (put_some k f o m) ≡ (if str_eq k j then value_of f o (get j m) else get j m)
unfolding put_some
get-put_some k j f none m = ground arith
get-put_some k j f (some a) m = ground (arith, get-put k j (f a) m)

get-no_feedback :
    (k : String)
    → get k no_feedback ≡ (
        if str_eq "responseLatex" k
        then some null
        else if str_eq "responseSimplified" k
        then some null
        else none)
unfolding get
get-no_feedback k = refl

-- The feedback of a result, field by field: the LaTeX and the simplified response are always
-- there, null where the result has no such text; the points are there exactly where `is_correct`
-- is a truth value, the message where `feedback` is a text, and the matched case where it is a
-- number.
pub record IsFeedback (result m : Fields) : Type 0 where
  pub latex :
      get "responseLatex" m ≡ value_of string (as_string (get "response_latex" result)) (some null)
  pub simplified :
      get "responseSimplified" m
      ≡ value_of string (as_string (get "response_simplified" result)) (some null)
  pub awarded : get "awardedPoints" m ≡ value_of points (as_bool (get "is_correct" result)) none
  pub message : get "message" m ≡ value_of string (as_string (get "feedback" result)) none
  pub matched :
      get "matchedCase" m
      ≡ value_of (λ f. int (truncate f)) (as_float64 (get "matched_case" result)) none
  pub tags :
      get "tags" m ≡ value_of (λ xs. strings (string_tags xs)) (as_slice (get "tags" result)) none

-- Each field of the muEd feedback of a legacy result is what its one field of the result gives: the
-- two texts, or null, the points for the verdict, and, where they are there, the feedback, the
-- matched case and the tags.
pub evaluate_feedback-IsFeedback : (result : Fields) → IsFeedback result (evaluate_feedback result)
unfolding evaluate_feedback
evaluate_feedback-IsFeedback result = record {
  latex = simp (get-put_some, get-no_feedback);
  simplified = simp (get-put_some, get-no_feedback);
  awarded = simp (get-put_some, get-no_feedback);
  message = simp (get-put_some, get-no_feedback);
  matched = simp (get-put_some, get-no_feedback);
  tags = simp (get-put_some, get-no_feedback);
}
