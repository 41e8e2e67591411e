-- ===== src/Http/MuEdHandler.antt =====
-- handler/mued.go. How `encoding/json` fills the structs of a muEd request is a parameter.
pub mod Auth
pub mod Forwarding
use shimmy_wasm_go.Base.{
  ℕ, String, Bool, true, false, Option, none, some, List, [], ◌∷◌, str_eq, if◌then◌else◌, ◌==◌,
}
use shimmy_wasm_go.Exec.{Error, error_text, Result, ok, err, panics}
use shimmy_wasm_go.Json.{
  Value, slice, object, Items, nil, cons, Fields, end, get, as_object, or_null, Map, entries,
}
use shimmy_wasm_go.Json.Codec.{Body, document, to_json, unmarshal, marshal}
use shimmy_wasm_go.Runtime.Command.{Command, preview, eval, healthcheck, command_text, Header}
use shimmy_wasm_go.Runtime.Response.{Request, Response}
use shimmy_wasm_go.Runtime.Validate.{Runtime}
use shimmy_wasm_go.Runtime.MuEd.{
  EvaluateRequest, PreSubmissionFeedback, build_legacy_evaluate_request,
  build_legacy_preview_request, to_evaluate_feedback, to_preview_feedback,
}
use shimmy_wasm_go.Http.Reply.{Reply, HttpRequest, http_error, forward, json_reply, is_unauthorized}

abbrev enabled : Option PreSubmissionFeedback → Bool
enabled none = false
enabled (some p) = p.enabled

unfoldable pub is_preview : EvaluateRequest → Bool
is_preview req = enabled req.pre_submission_feedback

unfoldable pub legacy_body : EvaluateRequest → Result Error Fields
unfolding build_legacy_evaluate_request build_legacy_preview_request is_preview
legacy_body req =
    if is_preview req then build_legacy_preview_request req else build_legacy_evaluate_request req

abbrev pub the_command : Bool → Command
the_command true = preview
the_command false = eval

-- the request that goes to the runtime handler
unfoldable pub legacy_request : String → Bool → Fields → Request
unfolding marshal
legacy_request path preview_mode body = record {
  path = path;
  method = "POST";
  body = marshal (some body);
  header = ("Command", command_text (the_command preview_mode) ∷ []) ∷ [];
}

abbrev feedback_items : List Fields → Items
feedback_items [] = nil
feedback_items (m ∷ ms) = cons (object m) (feedback_items ms)

-- `json.NewEncoder(w).Encode(feedback)`
abbrev pub feedback_reply : List Fields → Reply
feedback_reply ms = json_reply (document (to_json (slice (feedback_items ms))))

abbrev feedback_of : Bool → Fields → List Fields
feedback_of true result = to_preview_feedback result
feedback_of false result = to_evaluate_feedback result

-- what follows a response with the status 200
unfoldable pub convert : Bool → Body → Reply
unfolding unmarshal to_preview_feedback to_evaluate_feedback to_json
convert preview_mode b = elim (unmarshal b) [
  | err e ↦ http_error "failed to parse response" 500
  | panics ↦ http_error "failed to parse response" 500
  | ok m ↦ elim (as_object (get "result" (entries m))) [
    | none ↦ http_error "invalid response from evaluation function" 500
    | some result ↦ feedback_reply (feedback_of preview_mode result)
  ]
]

abbrev pub reply_to : Bool → Response → Reply
reply_to preview_mode r = if r.status_code == 200 then convert preview_mode r.body else forward r

abbrev pub replied : {S : Type 0} → Bool → Option Response × S → Option Reply × S
replied preview_mode (none, s) = (none, s)
replied preview_mode (some r, s) = (some (reply_to preview_mode r), s)

module _ {S : Type 0} (handle : Request → S → Option Response × S) (key : String)
    (decode : Body → Result Error EvaluateRequest) where
  unfoldable pub serve_decoded : String → EvaluateRequest → S → Option Reply × S
  unfolding legacy_body legacy_request convert
  serve_decoded path req s = elim (legacy_body req) [
    | err e ↦ (some (http_error (error_text e) 400), s)
    | panics ↦ (none, s)
    | ok body ↦ replied (is_preview req) (handle (legacy_request path (is_preview req) body) s)
  ]

  -- `ServeEvaluate`; `none` is a panic of the runtime handler.
  unfoldable pub serve_evaluate : HttpRequest → S → Option Reply × S
  unfolding is_unauthorized serve_decoded
  serve_evaluate r s =
      if is_unauthorized key r.header
      then (some (http_error "unauthorized" 401), s)
      else if str_eq r.method "POST"
      then (elim r.content [
        | none ↦ (some (http_error "failed to read body" 400), s)
        | some b ↦ elim (decode b) [
          | err e ↦ (some (http_error "invalid request body" 400), s)
          | panics ↦ (none, s)
          | ok req ↦ serve_decoded r.path req s
        ]
      ])
      else (some (http_error "method not allowed" 405), s)

module _ {S : Type 0} (rt : Runtime S) (key : String) where
  abbrev health_reply : Result Error Map × S → Option Reply × S
  health_reply (err e, s) = (some (http_error "health check failed" 500), s)
  health_reply (panics, s) = (none, s)
  health_reply (ok m, s) = elim (get "result" (entries m)) [
    | none ↦ (some (http_error "invalid health response" 500), s)
    | some v ↦ (some (json_reply (document (to_json v))), s)
  ]

  -- `ServeHealth`
  unfoldable pub serve_health : HttpRequest → S → Option Reply × S
  unfolding is_unauthorized to_json
  serve_health r s =
      if is_unauthorized key r.header
      then (some (http_error "unauthorized" 401), s)
      else if str_eq r.method "GET"
      then health_reply (rt.handle healthcheck (some end) s)
      else (some (http_error "method not allowed" 405), s)
