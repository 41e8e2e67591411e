-- ===== src/Exec.antt =====
-- Go's errors, and the functions that return `(T, error)`, may panic and change a state.
use Prim.Native.String
use shimmy_wasm_go.Base.{String, ◌≡◌, refl, ◌⊎◌, inl, inr, Bool, true, false}

-- `message` is `errors.New`, or `fmt.Errorf` that wraps nothing; `wrap` is `fmt.Errorf("s: %w", e)`;
-- `sentinel` is a package variable that is compared by identity.
pub data Error : Type 0 where
  sentinel message : String → Error
  wrap : String → Error → Error

infixr 60 ◌<>◌
abbrev pub ◌<>◌ : String → String → String
s <> t = String.◌++◌ s t

-- `err.Error()`
unfoldable pub error_text : Error → String
error_text (sentinel s) = s
error_text (message s) = s
error_text (wrap s e) = s <> ": " <> error_text e

pub data Result {ℓ κ} (E : Type κ) (A : Type ℓ) : Type (ℓ ⊔ κ) where
  ok : A → Result E A
  err : E → Result E A
  panics : Result E A

-- A function over a state that stands outside it: what was changed before an error or a panic
-- stays changed.
abbrev pub Exec : Type 0 → Type 0 → Type 0 → Type 0
Exec E S A = S → Result E A × S

module _ {E S A : Type 0} where
  abbrev pub pure : A → Exec E S A
  pure a s = (ok a, s)

  abbrev pub raise : E → Exec E S A
  raise e s = (err e, s)

  abbrev pub panic : Exec E S A
  panic s = (panics, s)

  abbrev pub lift : Result E A → Exec E S A
  lift r s = (r, s)

module _ {E S A B : Type 0} where
  abbrev pub continue : Result E A → (A → Exec E S B) → Exec E S B
  continue (ok a) f s = f a s
  continue (err e) f s = (err e, s)
  continue panics f s = (panics, s)

  infixl 5 ◌>>=◌ ◌>>◌
  abbrev pub ◌>>=◌ : Exec E S A → (A → Exec E S B) → Exec E S B
  ◌>>=◌ m f s = continue (m s).0 f (m s).1

  abbrev pub ◌>>◌ : Exec E S A → Exec E S B → Exec E S B
  m >> n = m >>= λ _. n

-- The value that a run leaves, and whether it has one.
abbrev pub is_ok {ℓ κ} : {E : Type κ} {A : Type ℓ} → Result E A → Bool
is_ok (ok a) = true
is_ok (err e) = false
is_ok panics = false

-- A split on what a run returned, with the state that it left.
abbrev pub Returned : {E S A : Type 0} → Result E A × S → Type 0
Returned {E} {S} {A} m =
    ((a : A) × (s : S) × (m ≡ (ok a, s)))
    ⊎ ((e : E) × (s : S) × (m ≡ (err e, s)))
    ⊎ ((s : S) × (m ≡ (panics, s)))

pub Returned-cases : {E S A : Type 0} (m : Result E A × S) → Returned m
Returned-cases (ok a, s) = inl (a, s, refl)
Returned-cases (err e, s) = inr (inl (e, s, refl))
Returned-cases (panics, s) = inr (inr (s, refl))

pub Result-cases {ℓ κ} :
    {E : Type κ} {A : Type ℓ} (r : Result E A)
    → ((a : A) × (r ≡ ok a)) ⊎ ((e : E) × (r ≡ err e)) ⊎ (r ≡ panics)
Result-cases (ok a) = inl (a, refl)
Result-cases (err e) = inr (inl (e, refl))
Result-cases panics = inr (inr refl)
