-- ===== src/Runtime/MuEd/Legacy.antt =====
-- The requests that muEd requests are turned into.
use shimmy_wasm_go.Base.{◌≡◌, ◌≢◌, ◌↔◌, inl, inr, none, some, arith, Option-cases}
use shimmy_wasm_go.Exec.{ok, Result-cases}
use shimmy_wasm_go.Json.{Value, Fields, get, object, entries, Map}
use shimmy_wasm_go.Json.Laws.{first_of_two}
use shimmy_wasm_go.Runtime.MuEd.{
  SubmissionType, other, EvaluateRequest, Submission, content_key, extract_content, extract_params,
  build_legacy_evaluate_request, reference,
}

-- The content is what stands under the key of the type, or else under `value`: it is extracted
-- exactly where one of the two is there.
pub extract_content_iff :
    (content : Map) (t : SubmissionType) (v : Value)
    → (extract_content content t ≡ ok v) ↔ (
        first_of_two (get (content_key t) (entries content)) (get "value" (entries content))
        ≡ some v)
unfolding extract_content
extract_content_iff content other v = (λ e. ground arith, λ e. ground arith)
extract_content_iff content _ v = (λ e. ground arith, λ e. ground arith)

-- what `build_legacy_evaluate_request` is made of
pub record Built (req : EvaluateRequest) (m : Fields) : Type 0 where
  pub response : Value
  pub solution : Submission
  pub answer : Value
  pub submitted : extract_content req.submission.content req.submission.type ≡ ok response
  pub given : reference req.task ≡ some solution
  pub solved : extract_content solution.content solution.type ≡ ok answer
  pub has_response : get "response" m ≡ some response
  pub has_answer : get "answer" m ≡ some answer
  pub has_params : get "params" m ≡ some (object (extract_params req))

-- A request that is built for `eval` has the submitted content as its response, the content of the
-- reference solution as its answer, and the params of the configuration.
pub build_legacy_evaluate_request-Built :
    (req : EvaluateRequest) (m : Fields) → build_legacy_evaluate_request req ≡ ok m → Built req m
unfolding build_legacy_evaluate_request get
build_legacy_evaluate_request-Built req m e =
    elim (Result-cases (extract_content req.submission.content req.submission.type)) [
      | inr p ↦ absurd (ground arith)
      | inl (response, p) ↦ elim (Option-cases (reference req.task)) [
        | inl q ↦ absurd (ground arith)
        | inr (solution, q) ↦ elim (Result-cases (extract_content solution.content solution.type)) [
          | inr r ↦ absurd (ground arith)
          | inl (answer, r) ↦ record {
            response = response;
            solution = solution;
            answer = answer;
            submitted = p;
            given = q;
            solved = r;
            has_response = ground arith;
            has_answer = ground arith;
            has_params = ground arith;
          }
        ]
      ]
    ]

-- Without a reference solution nothing is built for `eval`, whatever was submitted.
pub build_legacy_evaluate_request_unsolved :
    (req : EvaluateRequest) (m : Fields)
    → reference req.task ≡ none
    → build_legacy_evaluate_request req ≢ ok m
unfolding build_legacy_evaluate_request
build_legacy_evaluate_request_unsolved req m p e = ground arith
