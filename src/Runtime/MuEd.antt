-- ===== src/Runtime/MuEd.antt =====
-- runtime/mued.go
pub mod Legacy
pub mod Feedback
use shimmy_wasm_go.Base.{
  String, Bool, true, false, Option, none, some, List, [], ◌∷◌, if◌then◌else◌,
}
use shimmy_wasm_go.Exec.{Error, message, wrap, Result, ok, err, panics, ◌<>◌}
use shimmy_wasm_go.Json.{
  Value, null, bool, float64, int, string, slice, object, strings, Items, nil, cons, Fields, end,
  field, get, put, as_bool, as_string, as_float64, as_slice, Map, entries, Float64, truncate,
}
use shimmy_wasm_go.Json.Codec.{map_value}

-- The constants of `MuEdSubmissionType`, a string type, and its other values.
pub data SubmissionType : Type 0 where
  math text code model other : SubmissionType
  unknown : String → SubmissionType

abbrev pub submission_type_text : SubmissionType → String
submission_type_text math = "MATH"
submission_type_text text = "TEXT"
submission_type_text code = "CODE"
submission_type_text model = "MODEL"
submission_type_text other = "OTHER"
submission_type_text (unknown s) = s

pub record Submission : Type 0 where
  pub type : SubmissionType
  pub content : Map

-- pointers are options
pub record Task : Type 0 where
  pub reference_solution : Option Submission

pub record Configuration : Type 0 where
  pub params : Map

pub record PreSubmissionFeedback : Type 0 where
  pub enabled : Bool

pub record EvaluateRequest : Type 0 where
  pub submission : Submission
  pub task : Option Task
  pub configuration : Option Configuration
  pub pre_submission_feedback : Option PreSubmissionFeedback

unfoldable pub content_key : SubmissionType → String
content_key math = "expression"
content_key text = "text"
content_key code = "code"
content_key model = "model"
content_key _ = "value"

-- `t != MuEdOther`
abbrev is_other : SubmissionType → Bool
is_other other = true
is_other _ = false

abbrev no_content : SubmissionType → Error
no_content t = message ("could not extract content for submission type " <> submission_type_text t)

unfoldable pub extract_content : Map → SubmissionType → Result Error Value
unfolding content_key
extract_content content t = elim (get (content_key t) (entries content)) [
  | some v ↦ ok v
  | none ↦
      if is_other t
      then err (no_content t)
      else elim (get "value" (entries content)) [ some v ↦ ok v | none ↦ err (no_content t) ]
]

unfoldable pub extract_params : EvaluateRequest → Fields
extract_params req = elim req.configuration [ none ↦ end | some c ↦ entries c.params ]

infixl 5 ◌>>=◌
abbrev ◌>>=◌ {ℓ κ} :
    {A : Type ℓ} {B : Type κ} → Result Error A → (A → Result Error B) → Result Error B
ok a >>= f = f a
err e >>= f = err e
panics >>= f = panics

-- `fmt.Errorf("s: %w", err)` on the way out
abbrev wrapped {ℓ} : {A : Type ℓ} → String → Result Error A → Result Error A
wrapped s (ok a) = ok a
wrapped s (err e) = err (wrap s e)
wrapped s panics = panics

abbrev pub reference : Option Task → Option Submission
reference none = none
reference (some t) = t.reference_solution

abbrev or_missing : Option Submission → Result Error Submission
or_missing none = err (message "task.referenceSolution is required for evaluation")
or_missing (some s) = ok s

-- `MuEdBuildLegacyEvaluateRequest`
unfoldable pub build_legacy_evaluate_request : EvaluateRequest → Result Error Fields
unfolding extract_content extract_params
build_legacy_evaluate_request req = do
  response ← wrapped "submission" (extract_content req.submission.content req.submission.type)
  solution ← or_missing (reference req.task)
  answer ← wrapped "referenceSolution" (extract_content solution.content solution.type)
  ok (
      field "response" response
        (field "answer" answer (field "params" (object (extract_params req)) end)))

-- `MuEdBuildLegacyPreviewRequest`
unfoldable pub build_legacy_preview_request : EvaluateRequest → Result Error Fields
unfolding extract_content extract_params
build_legacy_preview_request req = do
  response ← wrapped "submission" (extract_content req.submission.content req.submission.type)
  ok (field "response" response (field "params" (object (extract_params req)) end))

-- `if v, ok := o; ok { m[k] = f(v) }`
unfoldable pub put_some {ℓ} : {A : Type ℓ} → String → (A → Value) → Option A → Fields → Fields
put_some k f none m = m
put_some k f (some a) m = put k (f a) m

abbrev pub points : Bool → Value
points true = float64 (record { negative = false; mantissa = 1; halvings = 0 })
points false = float64 (record { negative = false; mantissa = 0; halvings = 0 })

abbrev pub string_tags : Items → List String
string_tags nil = []
string_tags (cons (string s) xs) = s ∷ string_tags xs
string_tags (cons _ xs) = string_tags xs

abbrev pub no_feedback : Fields
no_feedback = field "responseLatex" null (field "responseSimplified" null end)

unfoldable pub evaluate_feedback : Fields → Fields
evaluate_feedback result =
    let m₁ = put_some "awardedPoints" points (as_bool (get "is_correct" result)) no_feedback in
    let m₂ = put_some "message" string (as_string (get "feedback" result)) m₁ in
    let m₃ =
      put_some "matchedCase" (λ f. int (truncate f)) (as_float64 (get "matched_case" result)) m₂ in
    let m₄ = put_some "responseLatex" string (as_string (get "response_latex" result)) m₃ in
    let m₅ =
      put_some "responseSimplified" string (as_string (get "response_simplified" result)) m₄ in
    put_some "tags" (λ xs. strings (string_tags xs)) (as_slice (get "tags" result)) m₅

-- `MuEdToEvaluateFeedback`
unfoldable pub to_evaluate_feedback : Fields → List Fields
unfolding evaluate_feedback
to_evaluate_feedback result = evaluate_feedback result ∷ []

-- `MuEdToPreviewFeedback`
unfoldable pub to_preview_feedback : Fields → List Fields
to_preview_feedback result = field "preSubmissionFeedback" (object result) end ∷ []
