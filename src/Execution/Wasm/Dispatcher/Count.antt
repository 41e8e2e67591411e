-- ===== src/Execution/Wasm/Dispatcher/Count.antt =====
-- How often an instance stands in a list of instances.
use shimmy_wasm_go.Base.{
  ℕ, zero, ◌+◌, ◌<◌, ◌≡◌, refl, ◌==◌, List, [], ◌∷◌, ◌++◌, if◌then◌else◌, arith,
}
use shimmy_wasm_go.Execution.Wasm.Dispatcher.{without}

abbrev pub count : ℕ → List ℕ → ℕ
count i [] = 0
count i (x ∷ xs) = (if x == i then 1 else 0) + count i xs

pub count-append : (i : ℕ) (xs ys : List ℕ) → count i (xs ++ ys) ≡ count i xs + count i ys
count-append i [] ys = omega arith
count-append i (x ∷ xs) ys = grind (arith, count-append i xs ys)

pub count-without :
    (i sv : ℕ) (xs : List ℕ)
    → zero < count sv xs
    → (if sv == i then 1 else 0) + count i (without sv xs) ≡ count i xs
count-without i sv [] h = absurd (ground arith)
count-without i sv (x ∷ xs) h = ground (arith, count-without i sv xs)

pub nil_of_count : (xs : List ℕ) → ((i : ℕ) → count i xs ≡ zero) → xs ≡ []
nil_of_count [] h = refl
nil_of_count (x ∷ xs) h = absurd (grind (arith, h x))
