-- ===== src/Runtime/Cases/Result.antt =====
-- What `ProcessEval` does to the result of the evaluation function.
use shimmy_wasm_go.Base.{
  String, ◌≡◌, ◌≢◌, refl, ap, ◌∙◌, inl, inr, Bool, true, false, Option, none, some, List, [], ◌∷◌,
  arith, Bool-cases,
}
use shimmy_wasm_go.Exec.{ok, Returned-cases}
use shimmy_wasm_go.Json.{
  Value, bool, CaseWarning, Items, nil, cons, Fields, get, as_object, as_slice, as_float64, or_null,
  Float64, truncate, case_warnings,
}
use shimmy_wasm_go.Json.Laws.{get-put, get-put_ne, get-put_self, ne_of_str_eq}
use shimmy_wasm_go.Runtime.Command.{Command}
use shimmy_wasm_go.Runtime.Response.{Request}
use shimmy_wasm_go.Runtime.Validate.{RuntimeHandler}
use shimmy_wasm_go.Runtime.Cases.{
  set_warnings, set_match, set_mark, is_one, is_false, or_end, get_case_feedback, process_cases,
  process_eval,
}

-- the keys that `ProcessEval` may write
pub record IsOther (k : String) : Type 0 where
  pub no_warnings : "warnings" ≢ k
  pub no_feedback : "feedback" ≢ k
  pub no_matched_case : "matched_case" ≢ k
  pub no_is_correct : "is_correct" ≢ k

get-set_warnings :
    (k : String) (ws : List CaseWarning) (m : Fields)
    → "warnings" ≢ k
    → get k (set_warnings ws m) ≡ get k m
get-set_warnings k [] m h = refl
get-set_warnings k (w ∷ ws) m h = get-put_ne "warnings" k _ m h

get-set_mark :
    (k : String) (o : Option Float64) (m : Fields)
    → "is_correct" ≢ k
    → get k (set_mark o m) ≡ get k m
get-set_mark k none m h = refl
get-set_mark k (some f) m h = get-put_ne "is_correct" k _ m h

get-set_match :
    (k : String) (o : Option Fields) (m : Fields) → IsOther k → get k (set_match o m) ≡ get k m
get-set_match k none m h = refl
get-set_match k (some x) m h =
    rw
      (
        get-set_mark k (as_float64 (get "mark" x)) _ h.no_is_correct,
        get-put_ne "matched_case" k (or_null (get "id" x)) _ h.no_matched_case,
      )
      (get-put_ne "feedback" k _ m h.no_feedback)

-- the verdict that a mark stands for
abbrev pub mark_verdict : Option Float64 → Bool
mark_verdict none = false
mark_verdict (some f) = is_one (truncate f)

-- the value of `is_correct` that a match leaves
abbrev pub marked : Option Fields → Bool
marked none = false
marked (some x) = mark_verdict (as_float64 (get "mark" x))

-- what the match has under `k`, or else what was there before
abbrev pub field_of : String → Option Fields → Option Value → Option Value
field_of k none before = before
field_of k (some x) before = some (or_null (get k x))

abbrev pub warnings_of : List CaseWarning → Option Value → Option Value
warnings_of [] before = before
warnings_of (w ∷ ws) before = some (case_warnings (w ∷ ws))

get-set_mark_self :
    (o : Option Float64) (m : Fields)
    → get "is_correct" m ≡ some (bool false)
    → get "is_correct" (set_mark o m) ≡ some (bool (mark_verdict o))
get-set_mark_self none m h = h
get-set_mark_self (some f) m h = get-put_self "is_correct" _ m

get-set_match-is_correct :
    (o : Option Fields) (m : Fields)
    → get "is_correct" m ≡ some (bool false)
    → get "is_correct" (set_match o m) ≡ some (bool (marked o))
get-set_match-is_correct none m h = h
get-set_match-is_correct (some x) m h =
    get-set_mark_self (as_float64 (get "mark" x)) _ (simp get-put h)

get-set_match-feedback :
    (o : Option Fields) (m : Fields)
    → get "feedback" (set_match o m) ≡ field_of "feedback" o (get "feedback" m)
get-set_match-feedback none m = refl
get-set_match-feedback (some x) m =
    rw
      (get-set_mark "feedback" (as_float64 (get "mark" x)) _
        (ne_of_str_eq "is_correct" "feedback" refl))
      (simp get-put)

get-set_match-matched_case :
    (o : Option Fields) (m : Fields)
    → get "matched_case" (set_match o m) ≡ field_of "id" o (get "matched_case" m)
get-set_match-matched_case none m = refl
get-set_match-matched_case (some x) m =
    rw
      (get-set_mark "matched_case" (as_float64 (get "mark" x)) _
        (ne_of_str_eq "is_correct" "matched_case" refl))
      (simp get-put)

get-set_match-warnings :
    (o : Option Fields) (m : Fields) → get "warnings" (set_match o m) ≡ get "warnings" m
get-set_match-warnings none m = refl
get-set_match-warnings (some x) m =
    rw
      (get-set_mark "warnings" (as_float64 (get "mark" x)) _
        (ne_of_str_eq "is_correct" "warnings" refl))
      (simp get-put)

get-set_warnings_self :
    (ws : List CaseWarning) (m : Fields)
    → get "warnings" (set_warnings ws m) ≡ warnings_of ws (get "warnings" m)
get-set_warnings_self [] m = refl
get-set_warnings_self (w ∷ ws) m = get-put_self "warnings" _ m

is_false→eq : (o : Option Value) → is_false o ≡ true → o ≡ some (bool false)
is_false→eq o e = ground arith

module _ {S : Type 0} (h : RuntimeHandler S) (req : Request) (command : Command) where
  process_cases-other :
      (k : String) (params : Fields) (cases : Option Items) (result : Fields) (s : S) (r : Fields)
      (t : S)
      → IsOther k
      → process_cases h req command params cases result s ≡ (ok r, t)
      → get k r ≡ get k result
  unfolding process_cases
  process_cases-other k params none result s r t o e = ground arith
  process_cases-other k params (some nil) result s r t o e = ground arith
  process_cases-other k params (some (cons c cs)) result s r t o e =
      elim (Returned-cases (get_case_feedback h req command params (cons c cs) s)) [
        | inl (x, u, p) ↦ ground (
          arith,
          rw p at e,
          get-set_match k x.0 (set_warnings x.1 result) o,
          get-set_warnings k x.1 result o.no_warnings,
        )
        | inr (inl (x, u, p)) ↦ cc (rw p at e)
        | inr (inr (u, p)) ↦ cc (rw p at e)
      ]

  -- Of the result only `warnings`, `feedback`, `matched_case` and `is_correct` can change.
  pub process_eval-other :
      (k : String) (body result : Fields) (s : S) (r : Fields) (t : S)
      → IsOther k
      → process_eval h req command body result s ≡ (ok r, t)
      → get k r ≡ get k result
  unfolding process_eval
  process_eval-other k body result s r t o e =
      elim (Bool-cases (is_false (get "is_correct" result))) [
        | inl wrong ↦
            process_cases-other k (or_end (as_object (get "params" body)))
              (as_slice (get "cases" (or_end (as_object (get "params" body))))) result s r t o
              (ground arith)
        | inr right ↦ ground arith
      ]

  -- A result that is not marked wrong is left as it is, and no case is evaluated.
  pub process_eval-not_wrong :
      (body result : Fields) (s : S)
      → get "is_correct" result ≢ some (bool false)
      → process_eval h req command body result s ≡ (ok result, s)
  unfolding process_eval
  process_eval-not_wrong body result s n = elim (Bool-cases (is_false (get "is_correct" result))) [
    | inl wrong ↦ absurd (n (is_false→eq _ wrong))
    | inr right ↦ ground arith
  ]

  -- A result that is marked wrong, where the params have cases, comes out with the verdict of the
  -- match, with its feedback and its index, and with the warnings; without a match the verdict, the
  -- feedback and the index stay as they were.
  pub process_eval-cases :
      (body result params : Fields) (c : Value) (cs : Items) (s : S) (r : Fields) (t : S)
      → get "is_correct" result ≡ some (bool false)
      → as_object (get "params" body) ≡ some params
      → as_slice (get "cases" params) ≡ some (cons c cs)
      → process_eval h req command body result s ≡ (ok r, t)
      → (m : Option Fields) × (ws : List CaseWarning) × (get_case_feedback h req command params
            (cons c cs)
            s
          ≡ (ok (m, ws), t))
        × (get "is_correct" r ≡ some (bool (marked m)))
        × (get "feedback" r ≡ field_of "feedback" m (get "feedback" result))
        × (get "matched_case" r ≡ field_of "id" m (get "matched_case" result))
        × (get "warnings" r ≡ warnings_of ws (get "warnings" result))
  unfolding process_eval process_cases
  process_eval-cases body result params c cs s r t w p q e =
      elim (Returned-cases (get_case_feedback h req command params (cons c cs) s)) [
        | inl (x, u, g) ↦
            let shape : (r ≡ set_match x.0 (set_warnings x.1 result)) × (t ≡ u) = ground arith in
            (
              x.0,
              x.1,
              ground arith,
              rw shape.0 (
                  get-set_match-is_correct x.0 _ (
                    rw
                      (get-set_warnings "is_correct" x.1 result
                        (ne_of_str_eq "warnings" "is_correct" refl))
                      w)),
              rw shape.0 (
                  get-set_match-feedback x.0 _
                  ∙ ap (field_of "feedback" x.0) (
                      get-set_warnings "feedback" x.1 result
                        (ne_of_str_eq "warnings" "feedback" refl))),
              rw shape.0 (
                  get-set_match-matched_case x.0 _
                  ∙ ap (field_of "id" x.0) (
                      get-set_warnings "matched_case" x.1 result
                        (ne_of_str_eq "warnings" "matched_case" refl))),
              rw shape.0 (get-set_match-warnings x.0 _ ∙ get-set_warnings_self x.1 result),
            )
        | inr (inl (x, u, g)) ↦ cc (rw (w, p, q, g) at e)
        | inr (inr (u, g)) ↦ cc (rw (w, p, q, g) at e)
      ]
