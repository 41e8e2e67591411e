-- ===== src/Http/Server/Evaluate.antt =====
-- An evaluation from the HTTP request to the reply.
use shimmy_wasm_go.Base.{
  String, Option, none, some, ◌≡◌, ap, ◌∙◌, true, false, codes, arith, has_suffix,
}
use shimmy_wasm_go.Exec.{Error, Result, ok}
use shimmy_wasm_go.Json.{Fields, get, put, object, as_object}
use shimmy_wasm_go.Json.Laws.{get-put}
use shimmy_wasm_go.Json.Codec.{Body, marshal, to_json, to_json_fields, unmarshal-marshal}
use shimmy_wasm_go.Runtime.Command.{eval}
use shimmy_wasm_go.Runtime.Errors.{request, response}
use shimmy_wasm_go.Runtime.Response.{Response, new_response}
use shimmy_wasm_go.Runtime.Cases.{is_false, process_eval}
use shimmy_wasm_go.Runtime.Handler.{handle, handle_request, run_command, finish}
use shimmy_wasm_go.Runtime.Validate.{RuntimeHandler, validate}
use shimmy_wasm_go.Runtime.MuEd.{EvaluateRequest, to_evaluate_feedback}
use shimmy_wasm_go.Http.Reply.{Reply, HttpRequest, is_unauthorized}
use shimmy_wasm_go.Http.Path.{evaluate, evaluate_health}
use shimmy_wasm_go.Http.MuEdHandler.{
  is_preview, legacy_body, legacy_request, feedback_reply, serve_decoded, convert,
}
use shimmy_wasm_go.Http.MuEdHandler.Forwarding.{legacy_request-command}
use shimmy_wasm_go.Http.Server.{normalized, serve}
use shimmy_wasm_go.Http.Server.Legacy.{
  json_option, get-to_json_fields, send_command-legacy, serve_decoded-converted,
  serve_evaluate-decoded, normalized-evaluate, serve-routed,
}

module _ {S : Type 0} (h : RuntimeHandler S) where
  -- A correct result is passed on as it is.
  process_eval_correct :
      (req : shimmy_wasm_go.Runtime.Response.Request) (body result : Fields) (s : S)
      → is_false (get "is_correct" result) ≡ false
      → process_eval h req eval body result s ≡ (ok result, s)
  unfolding process_eval
  process_eval_correct req body result s p = ground arith

  -- the runtime handler on a legacy request
  handle-legacy :
      (path : String) (body m result : Fields) (s t : S)
      → validate h request eval (some (to_json_fields body)) ≡ ok tt
      → h.runtime.handle eval (some (to_json_fields body)) s ≡ (ok (some m), t)
      → validate h response eval (some m) ≡ ok tt
      → as_object (get "result" (to_json_fields m)) ≡ some result
      → is_false (get "is_correct" result) ≡ false
      → handle h (legacy_request path false body) s ≡ (
        some (new_response 200 (marshal (some (put "result" (object result) (to_json_fields m))))),
        t,
      )
  unfolding handle handle_request run_command finish legacy_request
  handle-legacy path body m result s t v a w g c =
      let r = legacy_request path false body in
      let command = legacy_request-command path false body in
      let sent = send_command-legacy h path false body m s t v a w in
      let kept = process_eval_correct r (to_json_fields body) result t c in
      ground (arith, unmarshal-marshal body, unmarshal-marshal m, command.0, command.1)

result-put :
    (result m : Fields)
    → get "result" (to_json_fields (put "result" (object result) m))
      ≡ some (object (to_json_fields result))
unfolding to_json
result-put result m =
    get-to_json_fields "result" (put "result" (object result) m)
    ∙ ap json_option (get-put "result" "result" (object result) m)

convert-result :
    (result m : Fields)
    → convert false (marshal (some (put "result" (object result) m)))
      ≡ feedback_reply (to_evaluate_feedback (to_json_fields result))
unfolding convert
convert-result result m =
    ground (arith, result-put result m, unmarshal-marshal (put "result" (object result) m))

module _ {S : Type 0} (h : RuntimeHandler S) (key : String)
    (decode : Body → Result Error EvaluateRequest) (redirect : HttpRequest → Option Reply) where
  serve_decoded-evaluated :
      (path : String) (req : EvaluateRequest) (body m result : Fields) (s t : S)
      → is_preview req ≡ false
      → legacy_body req ≡ ok body
      → handle h (legacy_request path false body) s
        ≡ (some (new_response 200 (marshal (some (put "result" (object result) m)))), t)
      → serve_decoded (handle h) key decode path req s
        ≡ (some (feedback_reply (to_evaluate_feedback (to_json_fields result))), t)
  serve_decoded-evaluated path req body m result s t n l a =
      serve_decoded-converted h key decode redirect path false req body _ _ s t n l a
        (convert-result result m)

  -- What a client of the muEd route is promised: the path of the request ends in `/evaluate`, it is
  -- a POST with the key, its body decodes to a request that is no preview, and this one is built into
  -- a legacy body that the schema takes. If the evaluation function answers this body with a result
  -- that the schema takes and that is not wrong, the reply is the feedback of that result, as JSON
  -- writes it, and the evaluation function was asked once.
  pub serve-evaluated :
      (r : HttpRequest) (b : Body) (req : EvaluateRequest) (body m result : Fields) (s t : S)
      → redirect (normalized r) ≡ none
      → has_suffix evaluate_health (codes r.path) ≡ false
      → has_suffix evaluate (codes r.path) ≡ true
      → is_unauthorized key r.header ≡ false
      → r.method ≡ "POST"
      → r.content ≡ some b
      → decode b ≡ ok req
      → is_preview req ≡ false
      → legacy_body req ≡ ok body
      → validate h request eval (some (to_json_fields body)) ≡ ok tt
      → h.runtime.handle eval (some (to_json_fields body)) s ≡ (ok (some m), t)
      → validate h response eval (some m) ≡ ok tt
      → as_object (get "result" (to_json_fields m)) ≡ some result
      → is_false (get "is_correct" result) ≡ false
      → serve h key decode redirect r s
        ≡ (some (feedback_reply (to_evaluate_feedback (to_json_fields result))), t)
  serve-evaluated r b req body m result s t d e p u k q o n l v a w g c =
      let handled = handle-legacy h "/evaluate" body m result s t v a w g c in
      serve-routed h key decode redirect r s d (normalized-evaluate r e p)
      ∙ serve_evaluate-decoded h key decode redirect (record r { path = "/evaluate" }) b req s u k q
          o
      ∙ serve_decoded-evaluated "/evaluate" req body (to_json_fields m) result s t n l handled
