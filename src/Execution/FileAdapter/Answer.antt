-- ===== src/Execution/FileAdapter/Answer.antt =====
-- internal/execution/supervisor/adapter_file.go: what an answer tells.
use shimmy_wasm_go.Base.{
  String, ◌≡◌, refl, sym, ap, ◌∙◌, inl, inr, Bool, true, false, Option, none, some, List, [], ◌∷◌,
  ◌++◌, arith, Option-cases, Bool-cases,
}
use mathlib.Core.Path.{subst}
use shimmy_wasm_go.Exec.{◌<>◌, Error, Result, ok, err, panics, Result-cases}
use shimmy_wasm_go.Json.{Map}
use shimmy_wasm_go.Execution.Worker.{StartConfig}
use shimmy_wasm_go.Execution.Worker.Exit.{ExitEvent, success}
use shimmy_wasm_go.Execution.FileAdapter.{
  made_dir, created, removal, closing, closed, written, Answers, FileAdapter, send, exchange,
  with_response, with_request, with_dir, with_factory, request_body, worker_params, worked, exited,
  deferred,
}

-- the variables that the configuration gives, of which nil has none
abbrev pub given_env : Option (List String) → List String
given_env none = []
given_env (some env) = env

-- The worker of the message ran on the two files and succeeded, and the answer is what its response
-- file decodes to. The removal of both files was tried, and the request file is the one that the
-- message was written to.
pub record Answered (sys : Answers) (method : String) (m : Map) (a b : FileAdapter) (x : Map)
    : Type 0 where
  pub req : String
  pub res : String
  pub dir : String
  pub worker : StartConfig
  pub has_worker : b.worker ≡ some worker
  pub has_cmd : worker.cmd ≡ a.start_params.cmd
  pub has_cwd : worker.cwd ≡ a.start_params.cwd
  pub has_args : worker.args ≡ a.start_params.args ++ req ∷ res ∷ []
  pub has_env :
      worker.env
      ≡ some (
          given_env a.start_params.env
          ++ "EVAL_IO=FILE"
            ∷ ("EVAL_FILE_NAME_REQUEST=" <> req)
            ∷ ("EVAL_FILE_NAME_RESPONSE=" <> res)
            ∷ [])
  pub event : ExitEvent
  pub has_event : sys.exit ≡ ok event
  pub succeeded : success event ≡ true
  pub response_decodes : sys.decode ≡ ok x
  pub history :
      b.files
      ≡ removal sys req
        ∷ closing sys res
        ∷ removal sys res
        ∷ closed req
        ∷ written req (request_body method m)
        ∷ created res
        ∷ created req
        ∷ made_dir dir
        ∷ a.files

exited-ok :
    (sys : Answers) (r : Result Error ExitEvent) (x : Map)
    → exited sys r ≡ ok x
    → ((e : ExitEvent) × (r ≡ ok e) × (success e ≡ true)) × (sys.decode ≡ ok x)
exited-ok sys (ok e) x h = elim (Bool-cases (success e)) [
  | inl s ↦ ((e, refl, s), ground arith)
  | inr s ↦ absurd (ground arith)
]
exited-ok sys (err e) x h = absurd (ground arith)
exited-ok sys panics x h = absurd (ground arith)

worked-ok : (sys : Answers) (x : Map) → worked sys ≡ ok x → exited sys sys.exit ≡ ok x
worked-ok sys x h = ground arith

exchange-ok :
    (sys : Answers) (f : StartConfig → Option Error) (method : String) (m : Map) (req res : String)
    (a : FileAdapter) (x : Map)
    → (exchange sys f method m req res a).0 ≡ ok x
    → ((exchange sys f method m req res a).1 ≡ record a {
      worker = some (worker_params a.start_params req res);
      files = closed req ∷ written req (request_body method m) ∷ a.files;
    })
      × (worked sys ≡ ok x)
unfolding exchange
exchange-ok sys f method m req res a x h = ground arith

-- the deferred calls around the exchange
abbrev around :
    Answers → String → String → Result Error Map × FileAdapter → Result Error Map × FileAdapter
around sys req res o =
    deferred (removal sys req) (deferred (closing sys res) (deferred (removal sys res) o))

abbrev prepared : String → String → String → FileAdapter → FileAdapter
prepared dir req res a = record a { files = created res ∷ created req ∷ made_dir dir ∷ a.files }

with_dir-around :
    (sys : Answers) (f : StartConfig → Option Error) (method : String) (m : Map)
    (dir req res : String) (a : FileAdapter)
    → sys.request ≡ ok req
    → sys.response ≡ ok res
    → with_dir sys f method m (ok dir) a
      ≡ around sys req res (exchange sys f method m req res (prepared dir req res a))
with_dir-around sys f method m dir req res a p q =
    ap (λ r. with_request sys f method m r (record a { files = made_dir dir ∷ a.files })) p
    ∙ ap
        (λ r. deferred (removal sys req) (
          with_response sys f method m req r
            (record a { files = created req ∷ made_dir dir ∷ a.files })))
        q

worker_params-env :
    (c : StartConfig) (req res : String)
    → (worker_params c req res).env
      ≡ some (
          given_env c.env
          ++ "EVAL_IO=FILE"
            ∷ ("EVAL_FILE_NAME_REQUEST=" <> req)
            ∷ ("EVAL_FILE_NAME_RESPONSE=" <> res)
            ∷ [])
unfolding worker_params
worker_params-env c req res = ground arith

around-ok :
    (sys : Answers) (f : StartConfig → Option Error) (method : String) (m : Map)
    (dir req res : String) (a : FileAdapter) (x : Map)
    → (exchange sys f method m req res (prepared dir req res a)).0 ≡ ok x
    → Answered sys method m a
        (around sys req res (exchange sys f method m req res (prepared dir req res a))).1
        x
around-ok sys f method m dir req res a x h =
    let k = exchange-ok sys f method m req res (prepared dir req res a) x h in
    let z = exited-ok sys sys.exit x (worked-ok sys x k.1) in
    record {
      req = req;
      res = res;
      dir = dir;
      worker = worker_params a.start_params req res;
      has_cmd = unfold worker_params in refl;
      has_cwd = unfold worker_params in refl;
      has_args = unfold worker_params in refl;
      has_env = worker_params-env a.start_params req res;
      has_worker = ap (λ b. b.worker) k.0;
      event = z.0.0;
      has_event = z.0.1;
      succeeded = z.0.2;
      response_decodes = z.1;
      history = ap (λ b. removal sys req ∷ closing sys res ∷ removal sys res ∷ b.files) k.0;
    }

with_dir-ok :
    (sys : Answers) (f : StartConfig → Option Error) (method : String) (m : Map)
    (d : Result Error String) (a : FileAdapter) (x : Map)
    → (with_dir sys f method m d a).0 ≡ ok x
    → Answered sys method m a (with_dir sys f method m d a).1 x
with_dir-ok sys f method m (err e) a x h = absurd (ground arith)
with_dir-ok sys f method m panics a x h = absurd (ground arith)
with_dir-ok sys f method m (ok dir) a x h = elim (Result-cases sys.request) [
  | inl (req, p) ↦ elim (Result-cases sys.response) [
    | inl (res, q) ↦
        let same = with_dir-around sys f method m dir req res a p q in
        subst (λ o. Answered sys method m a o.1 x) (sym same)
          (around-ok sys f method m dir req res a x (sym (ap (λ o. o.0) same) ∙ h))
    | inr (inl (e, q)) ↦ absurd (ground arith)
    | inr (inr q) ↦ absurd (ground arith)
  ]
  | inr (inl (e, p)) ↦ absurd (ground arith)
  | inr (inr p) ↦ absurd (ground arith)
]

with_factory-ok :
    (sys : Answers) (f : StartConfig → Option Error) (method : String) (m : Map)
    (o : Option (Error × Bool)) (a : FileAdapter) (x : Map)
    → (with_factory sys f method m o a).0 ≡ ok x
    → Answered sys method m a (with_factory sys f method m o a).1 x
with_factory-ok sys f method m none a x h = with_dir-ok sys f method m sys.mkdir_temp a x h
with_factory-ok sys f method m (some (e, true)) a x h =
    with_dir-ok sys f method m sys.mkdir_temp a x h
with_factory-ok sys f method m (some (e, false)) a x h = absurd (ground arith)

-- If a message to a file adapter is answered, then its worker ran the configured command with the
-- names of the request and the response file as its last arguments and in its environment, and
-- succeeded; the message was written to the file that is named as the request, the answer is what
-- the response file decodes to, and the removal of both files was tried.
pub send-Answered :
    (sys : Answers) (method : String) (m : Map) (a : FileAdapter) (x : Map)
    → (send sys method m a).0 ≡ ok x
    → Answered sys method m a (send sys method m a).1 x
unfolding send
send-Answered sys method m a x h = elim (Option-cases sys.worker_factory) [
  | inl e ↦ absurd (ground arith)
  | inr (f, e) ↦
      let same : send sys method m a ≡ with_factory sys f method m sys.mkdir a = ground arith in
      subst (λ o. Answered sys method m a o.1 x) (sym same)
        (with_factory-ok sys f method m sys.mkdir a x (sym (ap (λ o. o.0) same) ∙ h))
]
