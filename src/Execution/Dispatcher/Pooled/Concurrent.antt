-- ===== src/Execution/Dispatcher/Pooled/Concurrent.antt =====
-- dispatcher_pooled.go: messages that run at the same time, with the goroutines that dispose of their
-- resources.
use shimmy_wasm_go.Base.{
  Bool, true, false, Option-cases, inl, inr, ap, ℕ, ◌+◌, String, ◌≡◌, ◌≢◌, refl, List, [], ◌∷◌,
  ◌++◌, ◌==◌, if◌then◌else◌, arith,
}
use shimmy_wasm_go.Exec.{Error, ok, err, panics, Returned-cases}
use shimmy_wasm_go.Json.{Map}
use shimmy_wasm_go.Execution.Supervisor.{Ref}
use shimmy_wasm_go.Execution.Dispatcher.Pooled.{
  Pool, Use, acquired, destroyed, released, Leftover, Dispatcher, send_to_supervisor, dispose,
  destroy_or_release, shut_down,
}

-- The dispatcher, with the resources whose messages run.
pub record State (P : Type 0) : Type 0 where
  pub dispatcher : Dispatcher P
  pub held : List Ref

abbrev pub fresh : {P : Type 0} → P → State P
fresh q = record { dispatcher = record { pool = q; uses = []; pending = [] }; held = [] }

-- The steps of all messages and of all disposals: a message gets a resource or none; it is over,
-- with an answer, an error or a panic, and leaves a disposal; a disposal, of any of those that are
-- left, runs and does not panic; and the pool is closed.
pub data Step {P : Type 0} (p : Pool P) : State P → State P → Type 0 where
  acquires :
      (s : State P) (r : Ref) (q : P)
      → p.acquire s.dispatcher.pool ≡ (ok r, q)
      → Step p s record {
        dispatcher = record s.dispatcher { pool = q; uses = acquired r ∷ s.dispatcher.uses };
        held = r ∷ s.held;
      }
  waits_in_vain :
      (s : State P) (e : Error) (q : P)
      → p.acquire s.dispatcher.pool ≡ (err e, q)
      → Step p s (record s { dispatcher = record s.dispatcher { pool = q } })
  breaks :
      (s : State P) (q : P)
      → p.acquire s.dispatcher.pool ≡ (panics, q)
      → Step p s (record s { dispatcher = record s.dispatcher { pool = q } })
  closes : (s : State P) → Step p s (record s { dispatcher = (shut_down p s.dispatcher).1 })
  ends :
      (s : State P) (method : String) (m : Map) (r : Ref) (front back : List Ref)
      → s.held ≡ front ++ r ∷ back
      → Step p s record {
        dispatcher = (send_to_supervisor p r method m s.dispatcher).1;
        held = front ++ back;
      }
  disposes :
      (s : State P) (x : Leftover) (front back : List Leftover)
      → s.dispatcher.pending ≡ front ++ x ∷ back
      → (dispose p x (record s.dispatcher { pending = front ++ back })).0 ≢ panics
      → Step p s (record s {
        dispatcher = (dispose p x (record s.dispatcher { pending = front ++ back })).1;
      })

pub data Reach {P : Type 0} (p : Pool P) (s : State P) : State P → Type 0 where
  here : Reach p s s
  later : (t u : State P) → Reach p s t → Step p t u → Reach p s u

-- how often the resource `r` was acquired, and how often it was given back or destroyed
abbrev pub acquisitions : Ref → List Use → ℕ
acquisitions r [] = 0
acquisitions r (acquired q ∷ t) = (if q == r then 1 else 0) + acquisitions r t
acquisitions r (_ ∷ t) = acquisitions r t

abbrev pub disposals : Ref → List Use → ℕ
disposals r [] = 0
disposals r (acquired q ∷ t) = disposals r t
disposals r (destroyed q ∷ t) = (if q == r then 1 else 0) + disposals r t
disposals r (released q ∷ t) = (if q == r then 1 else 0) + disposals r t

-- how often it is in the hands of a message, and of a disposal that is to run
abbrev pub holders : Ref → List Ref → ℕ
holders r [] = 0
holders r (q ∷ qs) = (if q == r then 1 else 0) + holders r qs

abbrev pub leftovers : Ref → List Leftover → ℕ
leftovers r [] = 0
leftovers r (x ∷ xs) = (if x.resource == r then 1 else 0) + leftovers r xs

holders-middle :
    (r q : Ref) (front back : List Ref)
    → holders r (front ++ q ∷ back) ≡ (if q == r then 1 else 0) + holders r (front ++ back)
holders-middle r q [] back = refl
holders-middle r q (f ∷ front) back = omega (arith, holders-middle r q front back)

leftovers-middle :
    (r : Ref) (x : Leftover) (front back : List Leftover)
    → leftovers r (front ++ x ∷ back)
      ≡ (if x.resource == r then 1 else 0) + leftovers r (front ++ back)
leftovers-middle r x [] back = refl
leftovers-middle r x (f ∷ front) back = omega (arith, leftovers-middle r x front back)

abbrev pub IsBalanced : {P : Type 0} → Ref → State P → Type 0
IsBalanced r s =
    acquisitions r s.dispatcher.uses
    ≡ disposals r s.dispatcher.uses + (holders r s.held + leftovers r s.dispatcher.pending)

module _ {P : Type 0} (p : Pool P) where
  send_to_supervisor-leaves :
      (r q : Ref) (method : String) (m : Map) (d : Dispatcher P)
      → let e = (send_to_supervisor p q method m d).1 in
        (e.uses ≡ d.uses)
        × (leftovers r e.pending ≡ (if q == r then 1 else 0) + leftovers r d.pending)
  unfolding send_to_supervisor
  send_to_supervisor-leaves r q method m d = elim (Returned-cases (p.send q method m d.pool)) [
    | inl (res, s, b) ↦ rw b (refl, refl)
    | inr (inl (e, s, b)) ↦ rw b (refl, refl)
    | inr (inr (s, b)) ↦ rw b (refl, refl)
  ]

  abbrev Counts : Ref → Ref → Dispatcher P → Dispatcher P → Type 0
  Counts r q d e =
      (acquisitions r e.uses ≡ acquisitions r d.uses)
      × (disposals r e.uses ≡ (if q == r then 1 else 0) + disposals r d.uses)
      × (e.pending ≡ d.pending)

  destroy_or_release-Counts :
      (r q : Ref) (failed : Bool) (d : Dispatcher P)
      → Counts r q d (destroy_or_release p failed q d)
  unfolding destroy_or_release
  destroy_or_release-Counts r q true d = (refl, refl, refl)
  destroy_or_release-Counts r q false d = (refl, refl, refl)

  dispose-Counts :
      (r : Ref) (x : Leftover) (d : Dispatcher P)
      → (dispose p x d).0 ≢ panics
      → Counts r x.resource d (dispose p x d).1
  unfolding dispose
  dispose-Counts r x d k = elim (Option-cases x.result) [
    | inl n ↦ rw n (destroy_or_release-Counts r x.resource x.failed d)
    | inr (res, n) ↦ elim (Returned-cases (p.run_release res.release d.pool)) [
      | inl (u, q, c) ↦
          rw (n, c) (destroy_or_release-Counts r x.resource x.failed (record d { pool = q }))
      | inr (inl (e, q, c)) ↦ rw (n, c) (refl, refl, refl)
      | inr (inr (q, c)) ↦ absurd (k (rw (n, c) refl))
    ]
  ]

  Step-IsBalanced : (r : Ref) {s t : State P} → Step p s t → IsBalanced r s → IsBalanced r t
  Step-IsBalanced r (acquires s q u e) b = omega (arith, b)
  Step-IsBalanced r (waits_in_vain s e q h) b = b
  Step-IsBalanced r (breaks s q h) b = b
  Step-IsBalanced r (closes s) b = unfold shut_down in b
  Step-IsBalanced r (ends s method m q front back h) b =
      let l = send_to_supervisor-leaves r q method m s.dispatcher in
      let held = holders-middle r q front back in
      omega (arith, b, ap (holders r) h, l.1, ap (acquisitions r) l.0, ap (disposals r) l.0, held)
  Step-IsBalanced r (disposes s x front back h k) b =
      let c = dispose-Counts r x (record s.dispatcher { pending = front ++ back }) k in
      let left = leftovers-middle r x front back in
      omega (arith, b, ap (leftovers r) h, c.0, c.1, ap (leftovers r) c.2, left)

  -- Whatever messages run on a new pooled dispatcher, and however their steps and those of the
  -- disposals that they leave interleave, where no disposal panics: each time that a resource was
  -- acquired, either its message still runs, or the disposal that it left is still to run, or the
  -- resource was given back or destroyed for it, once.
  pub Reach-IsBalanced : (q : P) (t : State P) (r : Ref) → Reach p (fresh q) t → IsBalanced r t
  Reach-IsBalanced q _ r here = refl
  Reach-IsBalanced q _ r (later t u h s) = Step-IsBalanced r s (Reach-IsBalanced q t r h)
