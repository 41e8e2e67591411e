-- ===== src/Execution/FileAdapter/Cleanup.antt =====
-- internal/execution/supervisor/adapter_file.go: what a message leaves on the disk.
use shimmy_wasm_go.Base.{
  String, ◌≡◌, refl, ap, ◌∙◌, inl, inr, Option, none, some, List, [], ◌∷◌, ◌++◌, if◌then◌else◌,
  str_eq, eq_refl, arith, Option-cases, Bool-cases,
}
use shimmy_wasm_go.Exec.{Error, Result, ok, err, panics}
use shimmy_wasm_go.Json.{Map}
use shimmy_wasm_go.Execution.Worker.{StartConfig}
use shimmy_wasm_go.Execution.FileAdapter.{
  FileEvent, made_dir, created, removed, removal, closing, Answers, FileAdapter, send, exchange,
  with_response, with_request, with_dir,
}

abbrev without : String → List String → List String
without s [] = []
without s (t ∷ ts) = if str_eq s t then ts else t ∷ without s ts

-- the files that are there, and the directories that were made
abbrev pub live : List FileEvent → List String
live [] = []
live (created s ∷ t) = s ∷ live t
live (removed s ∷ t) = without s (live t)
live (_ ∷ t) = live t

abbrev pub dirs : List FileEvent → List String
dirs [] = []
dirs (made_dir s ∷ t) = s ∷ dirs t
dirs (_ ∷ t) = dirs t

without-first : (s : String) (ts : List String) → without s (s ∷ ts) ≡ ts
without-first s ts = ground (arith, eq_refl s)

exchange-live :
    (sys : Answers) (f : StartConfig → Option Error) (method : String) (m : Map) (req res : String)
    (a : FileAdapter)
    → (live (exchange sys f method m req res a).1.files ≡ live a.files)
      × (dirs (exchange sys f method m req res a).1.files ≡ dirs a.files)
unfolding exchange
exchange-live sys f method m req res a = ground arith

-- the directory that a message makes for its files, if it comes that far
abbrev pub new_dirs : Result Error String → List String
new_dirs (ok dir) = dir ∷ []
new_dirs (err e) = []
new_dirs panics = []

abbrev pub made_dirs : Answers → List String
made_dirs sys = elim sys.worker_factory [
  | none ↦ []
  | some f ↦ elim sys.mkdir [
    | none ↦ new_dirs sys.mkdir_temp
    | some (e, exists) ↦ if exists then new_dirs sys.mkdir_temp else []
  ]
]

module _ (sys : Answers) (removes : (s : String) → sys.remove s ≡ none) where
  removal-removed : (s : String) → removal sys s ≡ removed s
  removal-removed s = rw (removal, removes s) refl

  closing-live : (s : String) (t : List FileEvent) → live (closing sys s ∷ t) ≡ live t
  closing-live s t = ground arith

  closing-dirs : (s : String) (t : List FileEvent) → dirs (closing sys s ∷ t) ≡ dirs t
  closing-dirs s t = ground arith

  -- The directories are `ds` more, and the files are as before.
  abbrev Leaves : List String → FileAdapter → FileAdapter → Type 0
  Leaves ds a b = (live b.files ≡ live a.files) × (dirs b.files ≡ ds ++ dirs a.files)

  with_response-Leaves :
      (f : StartConfig → Option Error) (method : String) (m : Map) (req : String)
      (r : Result Error String) (a : FileAdapter)
      → Leaves [] a (with_response sys f method m req r a).1
  with_response-Leaves f method m req (err e) a = (refl, refl)
  with_response-Leaves f method m req panics a = (refl, refl)
  with_response-Leaves f method m req (ok res) a =
      let b : FileAdapter = record a { files = created res ∷ a.files } in
      let x = exchange-live sys f method m req res b in
      let t = (exchange sys f method m req res b).1.files in
      (
        closing-live res (removal sys res ∷ t)
            ∙ ap (λ e. live (e ∷ t)) (removal-removed res)
            ∙ ap (without res) x.0
            ∙ without-first res (live a.files),
        closing-dirs res (removal sys res ∷ t) ∙ ap (λ e. dirs (e ∷ t)) (removal-removed res) ∙ x.1,
      )

  with_request-Leaves :
      (f : StartConfig → Option Error) (method : String) (m : Map) (r : Result Error String)
      (a : FileAdapter)
      → Leaves [] a (with_request sys f method m r a).1
  with_request-Leaves f method m (err e) a = (refl, refl)
  with_request-Leaves f method m panics a = (refl, refl)
  with_request-Leaves f method m (ok req) a =
      let b : FileAdapter = record a { files = created req ∷ a.files } in
      let x = with_response-Leaves f method m req sys.response b in
      let t = (with_response sys f method m req sys.response b).1.files in
      (
        ap (λ e. live (e ∷ t)) (removal-removed req)
            ∙ ap (without req) x.0
            ∙ without-first req (live a.files),
        ap (λ e. dirs (e ∷ t)) (removal-removed req) ∙ x.1,
      )

  with_dir-Leaves :
      (f : StartConfig → Option Error) (method : String) (m : Map) (r : Result Error String)
      (a : FileAdapter)
      → Leaves (new_dirs r) a (with_dir sys f method m r a).1
  with_dir-Leaves f method m (err e) a = (refl, refl)
  with_dir-Leaves f method m panics a = (refl, refl)
  with_dir-Leaves f method m (ok dir) a =
      with_request-Leaves f method m sys.request (record a { files = made_dir dir ∷ a.files })

  -- Where the removal of a file does not fail: whatever else the system, the worker and its factory
  -- answer, a message has removed each file that it created when it returns. The directory that it
  -- made for them stays, and it made one if there is a worker factory, the working directory is
  -- made or there already, and `os.MkdirTemp` succeeds.
  pub send-cleans :
      (method : String) (m : Map) (a : FileAdapter)
      → (live (send sys method m a).1.files ≡ live a.files)
        × (dirs (send sys method m a).1.files ≡ made_dirs sys ++ dirs a.files)
  unfolding send
  send-cleans method m a = elim (Option-cases sys.worker_factory) [
    | inl e ↦ rw e (refl, refl)
    | inr (f, e) ↦ elim (Option-cases sys.mkdir) [
      | inl p ↦ rw (e, p) (with_dir-Leaves f method m sys.mkdir_temp a)
      | inr ((x, exists), p) ↦ elim (Bool-cases exists) [
        | inl q ↦ rw (e, p, q) (with_dir-Leaves f method m sys.mkdir_temp a)
        | inr q ↦ rw (e, p, q) (refl, refl)
      ]
    ]
  ]
