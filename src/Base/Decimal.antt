-- ===== src/Base/Decimal.antt =====
-- Decimal numerals, as `fmt` writes them with `%d` and `strconv.Atoi` reads them.
use Prim.Native.Nat.{ℕ, zero, suc, ◌+◌, ◌-◌, ◌*◌, ◌/◌, ◌%◌, ◌<◌, ◌≤◌}
use Prim.Native.String.{String}
use Prim.Native.String
use mathlib.Core.Path.{◌≡◌, refl}
use mathlib.Core.Logic.{inl, inr, ◌≢◌}
use mathlib.Core.Bool.{Bool, ◌&&◌}
use mathlib.Core.Option.{Option, none, some}
use mathlib.Core.List.{List, [], ◌∷◌, ◌++◌, map, concat-ne-nil}
use native.Mathlib.Omega.{arith}
use shimmy_wasm_go.Base.Tests.{leb, ltb, Bool-cases, if◌then◌else◌}
use shimmy_wasm_go.Base.Lists.{get_elem?, All, All-append}
use shimmy_wasm_go.Base.Text.{Bytes}

-- The digits of a number, the first one first; the fuel bounds how many there are.
digits : ℕ → ℕ → List ℕ
digits zero n = []
digits (suc fuel) n =
    let rest = digits fuel (n / 10) in if ltb n 10 then n ∷ [] else rest ++ (n % 10) ∷ []

unfoldable pub decimal : ℕ → Bytes
unfolding digits
decimal n = map (λ d. b'0' + d) (digits (suc n) n)

abbrev digit_text : ℕ → String
digit_text d =
    elim (get_elem? {A = String} ("0" ∷ "1" ∷ "2" ∷ "3" ∷ "4" ∷ "5" ∷ "6" ∷ "7" ∷ "8" ∷ "9" ∷ [])
      d) [ none ↦ "" | some s ↦ s ]

abbrev concat : List String → String
concat [] = ""
concat (s ∷ ss) = String.◌++◌ s (concat ss)

unfoldable pub decimal_text : ℕ → String
unfolding digits
decimal_text n = concat (map digit_text (digits (suc n) n))

abbrev pub is_digit : ℕ → Bool
is_digit c = leb b'0' c && leb c b'9'

-- The value of a run of digits behind a number that is read already.
unfoldable pub scan : Bytes → ℕ → Option ℕ
scan [] n = some n
scan (c ∷ s) n = if is_digit c then scan s (n * 10 + (c - b'0')) else none

scan-append : (s t : Bytes) (n m : ℕ) → scan s n ≡ some m → scan (s ++ t) n ≡ scan t m
unfolding scan
scan-append [] t n m h = ground arith
scan-append (c ∷ s) t n m h = ground (arith, scan-append s t (n * 10 + (c - b'0')) m)

map-append_one :
    (ds : List ℕ) (d : ℕ)
    → map (λ x. b'0' + x) (ds ++ d ∷ []) ≡ map (λ x. b'0' + x) ds ++ (b'0' + d) ∷ []
map-append_one [] d = refl
map-append_one (x ∷ ds) d = ground (arith, map-append_one ds d)

scan-digits : (fuel n : ℕ) → n < fuel → scan (map (λ d. b'0' + d) (digits fuel n)) 0 ≡ some n
unfolding digits scan
scan-digits zero n h = elim h [ ]
scan-digits (suc fuel) n h = elim (Bool-cases (ltb n 10)) [
  | inl small ↦ rw small (ground arith)
  | inr large ↦
      rw
        (
          large,
          map-append_one (digits fuel (n / 10)) (n % 10),
          scan-append _ ((b'0' + n % 10) ∷ []) 0 (n / 10)
              (scan-digits fuel (n / 10) (ground arith)),
        )
        (ground arith)
]

pub scan-decimal : (n : ℕ) → scan (decimal n) 0 ≡ some n
unfolding decimal
scan-decimal n = scan-digits (suc n) n (omega arith)

pub record IsDigit (c : ℕ) : Type 0 where
  pub low : b'0' ≤ c
  pub high : c ≤ b'9'

digits-below : (fuel n : ℕ) → All (λ d. d < 10) (digits fuel n)
unfolding digits
digits-below zero n = tt
digits-below (suc fuel) n = elim (Bool-cases (ltb n 10)) [
  | inl small ↦ rw small (ground arith, tt)
  | inr large ↦
      rw large
        (All-append _ (digits fuel (n / 10)) _ (digits-below fuel (n / 10)) (omega arith, tt))
]

IsDigit-map : (ds : List ℕ) → All (λ d. d < 10) ds → All IsDigit (map (λ d. b'0' + d) ds)
IsDigit-map [] h = tt
IsDigit-map (d ∷ ds) h = (record { low = omega arith; high = omega arith }, IsDigit-map ds h.1)

pub decimal-IsDigit : (n : ℕ) → All IsDigit (decimal n)
unfolding decimal
decimal-IsDigit n = IsDigit-map _ (digits-below (suc n) n)

-- A numeral has a digit.
pub decimal-ne-nil : (n : ℕ) → decimal n ≢ []
unfolding decimal digits
decimal-ne-nil n e = elim (Bool-cases (ltb n 10)) [
  | inl small ↦ ground arith
  | inr large ↦
      concat-ne-nil (b'0' + n % 10) (map (λ d. b'0' + d) (digits n (n / 10)))
        (ground (arith, map-append_one (digits n (n / 10)) (n % 10)))
]
