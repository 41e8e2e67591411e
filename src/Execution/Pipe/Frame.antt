-- ===== src/Execution/Pipe/Frame.antt =====
-- What is written with a header is read back, behind any output that is no header.
use mathlib.Core.List.{reverse, reverse-append, reverse-reverse}
use shimmy_wasm_go.Base.{
  ℕ, zero, suc, ◌^◌, ◌≤◌, ◌<◌, ◌≡◌, ◌≢◌, refl, ap, ◌∙◌, sym, Bool, false, some, List, [], ◌∷◌, ◌++◌,
  append_assoc, length, length-append, take-length-append, drop-length-append, Bytes, arith, All,
  All-append, codes, has_prefix, trim_right, trim_left,
}
use shimmy_wasm_go.Base.Decimal.{decimal, scan-decimal, IsDigit, decimal-IsDigit, decimal-ne-nil}
use shimmy_wasm_go.Exec.{err, Error, Result, ok}
use shimmy_wasm_go.Json.{ℤ, pos}
use shimmy_wasm_go.Execution.Pipe.{
  eof, read_line, newline, is_eol, content_length, find_length, drain_header, read_full,
  read_message, header, parse_length,
}
use shimmy_wasm_go.Execution.Pipe.Numeral.{ends, parse_length_digits}

abbrev LacksNewline : Bytes → Type 0
LacksNewline = All (λ c. c ≢ newline)

read_line_lem :
    (s t : Bytes) → LacksNewline s → read_line (s ++ newline ∷ t) ≡ some (s ++ newline ∷ [], t)
unfolding read_line
read_line_lem [] t h = refl
read_line_lem (c ∷ s) t h = ground (arith, read_line_lem s t h.1)

trim_left_stop : (p : ℕ → Bool) (c : ℕ) (s : Bytes) → p c ≡ false → trim_left p (c ∷ s) ≡ c ∷ s
unfolding trim_left
trim_left_stop p c s h = rw h

-- The end of a line is trimmed away where a character before it is none.
trim_eol :
    (s : Bytes) (d : ℕ)
    → is_eol d ≡ false
    → trim_right is_eol ((s ++ d ∷ []) ++ 13 ∷ newline ∷ []) ≡ s ++ d ∷ []
unfolding trim_right
trim_eol s d h = rw (reverse-append (s ++ d ∷ []) (13 ∷ newline ∷ [])) (
    rw (reverse-append s (d ∷ []), trim_left_stop is_eol d (reverse s) h)
      (ap reverse (sym (reverse-append s (d ∷ []))) ∙ reverse-reverse (s ++ d ∷ [])))

decimal_form : (n : ℕ) → (c : ℕ) × (s : Bytes) × (decimal n ≡ c ∷ s) × IsDigit c × All IsDigit s
decimal_form n = split (decimal n) (decimal-ne-nil n) (decimal-IsDigit n)
  where
    split :
        (b : Bytes)
        → b ≢ []
        → All IsDigit b
        → (c : ℕ) × (s : Bytes) × (b ≡ c ∷ s) × IsDigit c × All IsDigit s
    split [] ne h = absurd (ne refl)
    split (c ∷ s) ne h = (c, s, refl, h.0, h.1)

-- the header's first line, without its end
abbrev first_line : ℕ → Bytes
first_line n = codes "Content-Length: " ++ decimal n

IsDigit-Lacks_newline : (s : Bytes) → All IsDigit s → LacksNewline s
IsDigit-Lacks_newline [] h = tt
IsDigit-Lacks_newline (c ∷ s) h = (omega arith, IsDigit-Lacks_newline s h.1)

first_line-Lacks_newline : (n : ℕ) → LacksNewline (first_line n ++ 13 ∷ [])
first_line-Lacks_newline n =
    All-append _ (first_line n) (13 ∷ [])
      (All-append _ (codes "Content-Length: ") (decimal n) (omega arith)
        (IsDigit-Lacks_newline (decimal n) (decimal-IsDigit n)))
      (omega arith)

digit_eol : (d : ℕ) → IsDigit d → is_eol d ≡ false
digit_eol d h = ground arith

first_line_trimmed :
    (n : ℕ) → trim_right is_eol ((first_line n ++ 13 ∷ []) ++ newline ∷ []) ≡ first_line n
first_line_trimmed n =
    let (c, s, e, hc, hs) = decimal_form n in
    let (t, d, p, hd) = ends c s hc hs in
    let q : first_line n ≡ (codes "Content-Length: " ++ t) ++ d ∷ [] =
      ap (λ x. codes "Content-Length: " ++ x) (e ∙ p)
      ∙ sym (append_assoc (codes "Content-Length: ") t (d ∷ [])) in
    ap (trim_right is_eol)
      (append_assoc (first_line n) (13 ∷ []) (newline ∷ []) ∙ ap (λ x. x ++ 13 ∷ newline ∷ []) q)
    ∙ trim_eol (codes "Content-Length: " ++ t) d (digit_eol d hd)
    ∙ sym q

parse_length-first_line : (n : ℕ) → n < 2 ^ 63 → parse_length (first_line n) ≡ ok (pos n)
parse_length-first_line n h =
    let (c, s, e, hc, hs) = decimal_form n in
    ap (λ x. parse_length (codes "Content-Length: " ++ x)) e
    ∙ parse_length_digits c s n hc hs (rw (← e) (scan-decimal n)) h

-- a line of output that is no header
abbrev pub IsStray : Bytes → Type 0
IsStray line =
    LacksNewline line
    × (has_prefix content_length (trim_right is_eol (line ++ newline ∷ [])) ≡ false)

abbrev pub lines_text : List Bytes → Bytes
lines_text [] = []
lines_text (line ∷ lines) = line ++ newline ∷ lines_text lines

find_length_skip :
    (fuel : ℕ) (line t : Bytes)
    → IsStray line
    → find_length (suc fuel) (line ++ newline ∷ t) ≡ find_length fuel t
unfolding find_length
find_length_skip fuel line t stray = rw (read_line_lem line t stray.0, find_length, stray.1)

find_length-first_line :
    (fuel n : ℕ) (t : Bytes)
    → n < 2 ^ 63
    → find_length (suc fuel) ((first_line n ++ 13 ∷ []) ++ newline ∷ t) ≡ (ok (pos n), t)
unfolding find_length
find_length-first_line fuel n t h =
    rw
      (
        read_line_lem (first_line n ++ 13 ∷ []) t (first_line-Lacks_newline n),
        find_length,
        first_line_trimmed n,
      )
      (ap (λ (r : Result Error ℤ). (r, t)) (parse_length-first_line n h))

find_length_stray :
    (fuel : ℕ) (lines : List Bytes) (n : ℕ) (t : Bytes)
    → n < 2 ^ 63
    → length lines < fuel
    → All IsStray lines
    → find_length fuel (lines_text lines ++ ((first_line n ++ 13 ∷ []) ++ newline ∷ t))
      ≡ (ok (pos n), t)
find_length_stray zero lines n t h f stray = absurd (omega arith)
find_length_stray (suc fuel) [] n t h f stray = find_length-first_line fuel n t h
find_length_stray (suc fuel) (line ∷ lines) n t h f stray =
    rw (append_assoc line (newline ∷ lines_text lines) ((first_line n ++ 13 ∷ []) ++ newline ∷ t)) (
      find_length_skip fuel line _ stray.0
      ∙ find_length_stray fuel lines n t h (omega arith) stray.1)

length-lines_text : (lines : List Bytes) → length lines ≤ length (lines_text lines)
length-lines_text [] = omega arith
length-lines_text (line ∷ lines) =
    omega (arith, length-append line (newline ∷ lines_text lines), length-lines_text lines)

fuel_enough :
    (lines : List Bytes) (n : ℕ) (t : Bytes)
    → length lines < suc (length (lines_text lines ++ ((first_line n ++ 13 ∷ []) ++ newline ∷ t)))
fuel_enough lines n t = omega (
  arith,
  length-append (lines_text lines) ((first_line n ++ 13 ∷ []) ++ newline ∷ t),
  length-lines_text lines,
)

read_full_lem : (p rest : Bytes) → read_full (pos (length p)) (p ++ rest) ≡ (ok p, rest)
unfolding read_full
read_full_lem p rest =
    ground (arith, take-length-append p rest, drop-length-append p rest, length-append p rest)

drain_header_blank :
    (fuel : ℕ) (t : Bytes) → drain_header (suc fuel) (13 ∷ newline ∷ t) ≡ (ok tt, t)
unfolding drain_header
drain_header_blank fuel t = refl

-- A message that `Write` frames is read back whole, and nothing behind it is, also where the
-- process has printed lines before it that are no headers.
pub read_message-write :
    (lines : List Bytes) (p rest : Bytes)
    → length p < 2 ^ 63
    → All IsStray lines
    → read_message (lines_text lines ++ (header (length p) ++ (p ++ rest))) ≡ (ok p, rest)
unfolding read_message
read_message-write lines p rest h stray =
    let t : Bytes = 13 ∷ newline ∷ (p ++ rest) in
    let shape : header (length p) ++ (p ++ rest)
        ≡ (first_line (length p) ++ 13 ∷ []) ++ newline ∷ t =
      simp append_assoc in
    rw (shape, find_length_stray _ lines (length p) t h (fuel_enough lines (length p) t) stray)
      (read_full_lem p rest)

find_length_end :
    (fuel : ℕ) (lines : List Bytes)
    → length lines < fuel
    → All IsStray lines
    → find_length fuel (lines_text lines) ≡ (err eof, [])
unfolding find_length read_line
find_length_end zero lines f stray = absurd (omega arith)
find_length_end (suc fuel) [] f stray = refl
find_length_end (suc fuel) (line ∷ lines) f stray =
    find_length_skip fuel line (lines_text lines) stray.0
    ∙ find_length_end fuel lines (omega arith) stray.1

-- Lines that are no headers, with no message behind them, are the end of the input.
pub read_message-stray :
    (lines : List Bytes) → All IsStray lines → read_message (lines_text lines) ≡ (err eof, [])
unfolding read_message
read_message-stray lines stray =
    let enough : length lines < suc (length (lines_text lines)) =
      omega (arith, length-lines_text lines) in
    rw (find_length_end (suc (length (lines_text lines))) lines enough stray) refl
