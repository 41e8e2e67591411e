-- ===== src/Execution/Pipe/Numeral.antt =====
-- Reading the value of a `Content-Length:` line back.
use shimmy_wasm_go.Base.{
  ℕ, zero, suc, ◌^◌, ◌<◌, ◌≡◌, refl, ap, Bool, false, some, [], ◌∷◌, ◌++◌, length, Bytes, arith,
  All, codes, ◌∙◌,
}
use shimmy_wasm_go.Base.Decimal.{scan, IsDigit}
use mathlib.Core.List.{reverse, reverse-append, reverse-reverse}
use shimmy_wasm_go.Exec.{ok}
use shimmy_wasm_go.Json.{pos}
use shimmy_wasm_go.Execution.Pipe.Space.{width, front, back, trim, trim_space, is_two, is_three}
use shimmy_wasm_go.Execution.Pipe.{parse_length}

-- A list of digits that is not empty has a last one.
abbrev pub Ends : Bytes → Type 0
Ends s = (t : Bytes) × (d : ℕ) × (s ≡ t ++ d ∷ []) × IsDigit d

pub ends : (c : ℕ) (s : Bytes) → IsDigit c → All IsDigit s → Ends (c ∷ s)
ends c [] hc hs = ([], c, refl, hc)
ends c (x ∷ s) hc hs = let (t, d, e, hd) = ends x s hs.0 hs.1 in (c ∷ t, d, ap (◌∷◌ c) e, hd)

width_digit :
    (two : ℕ → ℕ → Bool) (three : ℕ → ℕ → ℕ → Bool) (c : ℕ) (s : Bytes)
    → IsDigit c
    → ((b : ℕ) → two c b ≡ false)
    → ((b e : ℕ) → three c b e ≡ false)
    → width two three (c ∷ s) ≡ 0
unfolding width
width_digit two three c [] h h2 h3 = ground arith
width_digit two three c (b ∷ []) h h2 h3 = ground (arith, h2 b)
width_digit two three c (b ∷ e ∷ s) h h2 h3 = ground (arith, h2 b, h3 b e)

trim_stop : (w : Bytes → ℕ) (fuel : ℕ) (s : Bytes) → w s ≡ 0 → trim w fuel s ≡ s
unfolding trim
trim_stop w zero s h = refl
trim_stop w (suc fuel) s h = ground arith

reverse_end : (s t : Bytes) (d : ℕ) → s ≡ t ++ d ∷ [] → reverse s ≡ d ∷ reverse t
reverse_end s t d e = ap reverse e ∙ reverse-append t (d ∷ [])

trim_end :
    (w : Bytes → ℕ) (fuel : ℕ) (s : Bytes)
    → w (reverse s) ≡ 0
    → reverse (trim w fuel (reverse s)) ≡ s
trim_end w fuel s h = rw (trim_stop w fuel (reverse s) h) (reverse-reverse s)

front_digit : (c : ℕ) (s : Bytes) → IsDigit c → front (c ∷ s) ≡ 0
front_digit c s h = width_digit is_two is_three c s h (λ b. ground arith) (λ b e. ground arith)

back_digit : (c : ℕ) (s : Bytes) → IsDigit c → back (c ∷ s) ≡ 0
back_digit c s h = width_digit (λ b a. is_two a b) (λ e b a. is_three a b e) c s h two three
  where
    two : (b : ℕ) → is_two b c ≡ false
    two b = ground arith

    three : (b e : ℕ) → is_three e b c ≡ false
    three b e = ground arith

trim_front : (c : ℕ) (s : Bytes) → IsDigit c → trim front (length (32 ∷ c ∷ s)) (32 ∷ c ∷ s) ≡ c ∷ s
unfolding trim width
trim_front c s h = trim_stop front (length (c ∷ s)) (c ∷ s) (front_digit c s h)

-- One space before digits is trimmed away, and nothing else.
trim_space_digits :
    (c : ℕ) (s : Bytes) → IsDigit c → All IsDigit s → trim_space (32 ∷ c ∷ s) ≡ c ∷ s
unfolding trim_space
trim_space_digits c s hc hs =
    let (t, d, p, hd) = ends c s hc hs in
    rw (trim_front c s hc) (
      trim_end back (length (c ∷ s)) (c ∷ s)
        (ap back (reverse_end (c ∷ s) t d p) ∙ back_digit d (reverse t) hd))

pub parse_length_digits :
    (c : ℕ) (s : Bytes) (n : ℕ)
    → IsDigit c
    → All IsDigit s
    → scan (c ∷ s) 0 ≡ some n
    → n < 2 ^ 63
    → parse_length (codes "Content-Length: " ++ c ∷ s) ≡ ok (pos n)
unfolding parse_length
parse_length_digits c s n hc hs e h = rw (trim_space_digits c s hc hs, parse_length) (ground arith)
