-- ===== src/Execution/Wasm/Adapter/Growth.antt =====
-- internal/execution/wasm/adapter.go: a message neither panics nor takes memory from the guest, where
-- the runtime and the guest keep their promises.
use shimmy_wasm_go.Base.{
  ℕ, zero, ◌≤◌, String, ◌≡◌, ◌≢◌, refl, sym, inl, inr, Bool, true, false, Option, none, some, List,
  [], ◌∷◌, length, Bytes, arith, Option-cases,
}
use mathlib.Core.Path.{subst}
use shimmy_wasm_go.Exec.{Error, message, Result, ok, err, panics, Exec, Result-cases}
use shimmy_wasm_go.Json.{Map}
use shimmy_wasm_go.Execution.Wasm.Adapter.{
  Guest, Spelling, uint32, read_response, evaluated, calling, written, writing, allocated,
  send_text, send, request_envelope, parsed,
}

-- A function of the guest returns at least one number, or an error.
abbrev pub Answers : Result Error (List ℕ) → Type 0
Answers (ok []) = ⊥
Answers (ok (p ∷ ps)) = Unit
Answers (err e) = Unit
Answers panics = ⊥

-- What the runtime promises of a memory, which never shrinks, and of the exported functions, which
-- keep to the ABI; and a JSON text is read without a panic.
pub record Laws {G : Type 0} (guest : Guest G) (json : Spelling) : Type 0 where
  pub read-write :
      (g h : G) (b : Bytes) → guest.write g zero b ≡ some h → guest.read h zero (length b) ≡ some b
  pub read-length : (g : G) (n : ℕ) (b : Bytes) → guest.read g zero n ≡ some b → length b ≡ n
  pub size-write :
      (g h : G) (p : ℕ) (b : Bytes) → guest.write g p b ≡ some h → guest.size h ≡ guest.size g
  pub write_fits : (g : G) (b : Bytes) → length b ≤ guest.size g → guest.write g zero b ≢ none
  pub alloc_grows :
      (f : ℕ → Exec Error G (List ℕ)) (n : ℕ) (g : G)
      → guest.alloc ≡ some f
      → Answers (f n g).0 × (guest.size g ≤ guest.size (f n g).1)
  pub evaluate_grows :
      (f : ℕ → ℕ → Exec Error G (List ℕ)) (p n : ℕ) (g : G)
      → guest.evaluate ≡ some f
      → Answers (f p n g).0 × (guest.size g ≤ guest.size (f p n g).1)
  pub parse_returns : (t : Bytes) → json.parse t ≢ panics

-- The message did not panic, and left at least the memory that was there.
pub record Grown {G A : Type 0} (guest : Guest G) (g : G) (o : Result Error A × G) : Type 0 where
  pub returns : o.0 ≢ panics
  pub grows : guest.size g ≤ guest.size o.1

module _ {G : Type 0} (guest : Guest G) (json : Spelling) (laws : Laws guest json) where
  parsed-ne-panics : (t : Bytes) → parsed (json.parse t) ≢ panics
  parsed-ne-panics t e = elim (Result-cases (json.parse t)) [
    | inl (m, p) ↦ absurd (ground arith)
    | inr (inl (x, p)) ↦ absurd (ground arith)
    | inr (inr p) ↦ laws.parse_returns t p
  ]

  read_response-ne-panics : (g : G) (p : ℕ) → read_response guest json g p ≢ panics
  unfolding read_response
  read_response-ne-panics g p e = grind (arith, parsed-ne-panics)

  evaluated-Grown :
      (g : G) (o : Result Error (List ℕ) × G)
      → Answers o.0
      → guest.size g ≤ guest.size o.1
      → Grown guest g (evaluated guest json o)
  evaluated-Grown g (ok (p ∷ ps), h) a l = record {
    returns = read_response-ne-panics h (uint32 p);
    grows = l;
  }
  evaluated-Grown g (ok [], h) a l = absurd a
  evaluated-Grown g (err e, h) a l = record { returns = λ q. absurd (ground arith); grows = l }
  evaluated-Grown g (panics, h) a l = absurd a

  calling-Grown :
      (p : ℕ) (t : Bytes) (g h : G)
      → guest.size g ≡ guest.size h
      → Grown guest g (calling guest json p t h)
  calling-Grown p t g h e = elim (Option-cases guest.evaluate) [
    | inl n ↦
        let same : calling guest json p t h
            ≡ (err (message "wasm: guest module does not export 'evaluate'"), h) =
          ground arith in
        subst (Grown guest g) (sym same)
          (record { returns = λ q. absurd (ground arith); grows = omega arith })
    | inr (f, n) ↦
        let x = laws.evaluate_grows f p (length t) h n in
        let same : calling guest json p t h ≡ evaluated guest json (f p (length t) h) =
          ground arith in
        subst (Grown guest g) (sym same)
          (evaluated-Grown g (f p (length t) h) x.0 (grind (arith, x.1)))
  ]

  written-Grown :
      (p : ℕ) (t : Bytes) (g : G) (o : Option G)
      → ((h : G) → o ≡ some h → guest.size g ≡ guest.size h)
      → Grown guest g (written guest json p t g o)
  written-Grown p t g none k = record { returns = λ q. absurd (ground arith); grows = omega arith }
  written-Grown p t g (some h) k = calling-Grown p t g h (k h refl)

  writing-Grown :
      (b : Bool) (p : ℕ) (t : Bytes) (g : G) → Grown guest g (writing guest json b p t g)
  writing-Grown false p t g = record { returns = λ q. absurd (ground arith); grows = omega arith }
  writing-Grown true p t g =
      written-Grown p t g (guest.write g (uint32 p) t)
        (λ h e. sym (laws.size-write g h (uint32 p) t e))

  Grown-from :
      {A : Type 0} (g h : G) (o : Result Error A × G)
      → guest.size g ≤ guest.size h
      → Grown guest h o
      → Grown guest g o
  Grown-from g h o l x = record { returns = x.returns; grows = grind (arith, x.grows) }

  allocated-Grown :
      (t : Bytes) (g : G) (o : Result Error (List ℕ) × G)
      → Answers o.0
      → guest.size g ≤ guest.size o.1
      → Grown guest g (allocated guest json t o)
  allocated-Grown t g (ok (p ∷ ps), h) a l =
      Grown-from g h _ l (writing-Grown guest.has_memory p t h)
  allocated-Grown t g (ok [], h) a l = absurd a
  allocated-Grown t g (err e, h) a l = record { returns = λ q. absurd (ground arith); grows = l }
  allocated-Grown t g (panics, h) a l = absurd a

  -- A message returns a result or an error, and the guest has at least the memory that it had.
  pub send-Grown : (method : String) (m : Map) (g : G) → Grown guest g (send guest json method m g)
  unfolding send send_text
  send-Grown method m g =
      let t = json.spell (request_envelope method m) in
      elim (Option-cases guest.alloc) [
        | inl n ↦
            let same : send guest json method m g
                ≡ (err (message "wasm: guest module does not export 'alloc'"), g) =
              ground arith in
            subst (Grown guest g) (sym same)
              (record { returns = λ q. absurd (ground arith); grows = omega arith })
        | inr (f, n) ↦
            let x = laws.alloc_grows f (length t) g n in
            let same : send guest json method m g ≡ allocated guest json t (f (length t) g) =
              ground arith in
            subst (Grown guest g) (sym same) (allocated-Grown t g (f (length t) g) x.0 x.1)
      ]
