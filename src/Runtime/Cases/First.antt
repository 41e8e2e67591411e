-- ===== src/Runtime/Cases/First.antt =====
-- What the loop over the cases does, as a relation: it tries the cases in order and stops at the
-- first one that is correct.
use shimmy_wasm_go.Base.{
  ℕ, suc, ◌+◌, ◌<◌, ◌≡◌, refl, ◌⊎◌, inl, inr, true, false, [], ◌∷◌, String, arith, Bool-cases,
}
use shimmy_wasm_go.Exec.{ok, Returned-cases}
use shimmy_wasm_go.Json.{object, Items, nil, cons, Fields, items_length}
use shimmy_wasm_go.Runtime.Command.{Command}
use shimmy_wasm_go.Runtime.Response.{Request}
use shimmy_wasm_go.Runtime.Validate.{RuntimeHandler}
use shimmy_wasm_go.Runtime.Evaluate.{CaseResult, evaluate_case}
use shimmy_wasm_go.Runtime.Cases.{
  Search, with_case, note, found, find_loop, find_first_matching_case,
}

-- One match, of a case below `n`, with its feedback, or none.
abbrev pub AtMostOne : ℕ → Search → Type 0
AtMostOne n w =
    ((w.matches ≡ []) × (w.feedback ≡ []))
    ⊎ ((j : ℕ) × (f : String) × (w.matches ≡ j ∷ []) × (w.feedback ≡ f ∷ []) × (j < n))

module _ {S : Type 0} (h : RuntimeHandler S) (req : Request) (command : Command)
    (params : Fields) where
  -- the case at `index` was evaluated to `r` and left as `case'`
  abbrev pub Evaluates : Search → ℕ → Fields → S → CaseResult × Fields → S → Type 0
  Evaluates v index case s r t =
      evaluate_case h req command (with_case v.cases params) case index s ≡ (ok r, t)

  -- From `v` at the case `i` the loop got to `w` at the case `j`, every case between being wrong.
  pub data Tried (v : Search) (i : ℕ) (rest : Items) (s : S) : Search → ℕ → Items → S → Type 0 where
    here : Tried v i rest s v i rest s
    wrong :
        {w : Search} {j : ℕ} {case : Fields} {later : Items} {t u : S} {r : CaseResult × Fields}
        → Tried v i rest s w j (cons (object case) later) t
        → Evaluates w j case t r u
        → (r.0).is_correct ≡ false
        → Tried v i rest s (note w j r) (suc j) later u

  -- No case is correct and all were tried, or the case at `j` is the first that is correct, and the
  -- cases behind it were not tried.
  abbrev pub StopsAtFirst : Search → ℕ → Items → S → Search → S → Type 0
  StopsAtFirst v i rest s w t =
      ((j : ℕ) × Tried v i rest s w j nil t)
      ⊎ ((v' : Search) × (j : ℕ) × (case : Fields) × (later : Items) × (u : S) × (r : CaseResult
            × Fields)
          × Tried v i rest s v' j (cons (object case) later) u
          × Evaluates v' j case u r t
          × ((r.0).is_correct ≡ true)
          × (w ≡ found (note v' j r) j r.0))

  find_loop_stops :
      (v₀ : Search) (i₀ : ℕ) (rest₀ : Items) (s₀ : S) (v : Search) (i : ℕ) (rest : Items) (s : S)
      → Tried v₀ i₀ rest₀ s₀ v i rest s
      → (w : Search) (t : S) → find_loop h req command params v i rest s ≡ (ok w, t)
      → StopsAtFirst v₀ i₀ rest₀ s₀ w t
  unfolding find_loop
  find_loop_stops v₀ i₀ rest₀ s₀ v i nil s d w t e =
      let p : w ≡ v = ground arith in let q : t ≡ s = ground arith in inl (i, rw (p, q) d)
  find_loop_stops v₀ i₀ rest₀ s₀ v i (cons (object case) rest) s d w t e =
      elim (Returned-cases (evaluate_case h req command (with_case v.cases params) case i s)) [
        | inl (r, u, p) ↦
            let e' = rw p at e in
            elim (Bool-cases (r.0).is_correct) [
              | inl good ↦
                  let q : (w ≡ found (note v i r) i r.0) × (u ≡ t) = ground arith in
                  inr (v, i, case, rest, s, r, d, cc, good, q.0)
              | inr bad ↦
                  find_loop_stops v₀ i₀ rest₀ s₀ (note v i r) (suc i) rest u (wrong d p bad) w t
                    (ground arith)
            ]
        | inr (inl (x, u, p)) ↦ cc (rw p at e)
        | inr (inr (u, p)) ↦ cc (rw p at e)
      ]
  find_loop_stops v₀ i₀ rest₀ s₀ v i (cons _ rest) s d w t e = cc

  -- The search evaluates the cases in order: it stops at the first one that is correct, with its
  -- index and feedback and with the warnings up to it, and the cases behind it are not evaluated;
  -- or no case is correct and all were evaluated.
  pub find_first_matching_case-StopsAtFirst :
      (cases : Items) (s : S) (w : Search) (t : S)
      → find_first_matching_case h req command params cases s ≡ (ok w, t)
      → StopsAtFirst
          (record { matches = []; feedback = []; warnings = []; cases = cases })
          0
          cases
          s
          w
          t
  unfolding find_first_matching_case
  find_first_matching_case-StopsAtFirst cases s w t e =
      find_loop_stops _ 0 cases s _ 0 cases s here w t e

  -- What the relation keeps: no match so far, and warnings about the cases that were tried.
  pub Tried-no_match :
      {v : Search} {i : ℕ} {rest : Items} {s : S} {w : Search} {j : ℕ} {later : Items} {t : S}
      → Tried v i rest s w j later t
      → (w.matches ≡ v.matches)
        × (w.feedback ≡ v.feedback)
        × (j + items_length later ≡ i + items_length rest)
  Tried-no_match here = (refl, refl, refl)
  Tried-no_match (wrong d p bad) = let ih = Tried-no_match d in (ih.0, ih.1, omega (arith, ih.2))

  -- At most one case matches, and it comes with its feedback.
  pub find_first_matching_case-AtMostOne :
      (cases : Items) (s : S) (w : Search) (t : S)
      → find_first_matching_case h req command params cases s ≡ (ok w, t)
      → AtMostOne (items_length cases) w
  find_first_matching_case-AtMostOne cases s w t e =
      elim (find_first_matching_case-StopsAtFirst cases s w t e) [
        | inl (j, d) ↦ let k = Tried-no_match d in inl (k.0, k.1)
        | inr (v, j, case, later, u, r, d, p, good, q) ↦
            let k = Tried-no_match d in
            inr (j, r.0.feedback, ground (arith, k.0), ground (arith, k.1), omega (arith, k.2))
      ]
