-- ===== src/Execution/Pipe/Fuel.antt =====
-- internal/execution/supervisor/adapter_rpc_pipe.go: the loops of `Read` end on every input.
use shimmy_wasm_go.Base.{
  ℕ, Bool, str_eq, false, refl, leb, ltb, zero, suc, ◌<◌, ◌≡◌, inl, inr, some, [], ◌∷◌, Bytes,
  length, arith, Option-cases, Bool-cases, List-cases, trim_right, has_prefix,
}
use shimmy_wasm_go.Exec.{Error, sentinel, Result, err, Returned-cases}
use shimmy_wasm_go.Json.{ℤ, pos, negsuc}
use shimmy_wasm_go.Execution.Pipe.{
  read_line, is_eol, content_length, find_length, drain_header, Pipe, read, read_message, read_full,
  max_alloc, parse_length,
}

-- A line has a byte at least.
read_line-shorter : (s line rest : Bytes) → read_line s ≡ some (line, rest) → length rest < length s
unfolding read_line
read_line-shorter [] line rest e = absurd (ground arith)
read_line-shorter (c ∷ s) line rest e = elim (Option-cases (read_line s)) [
  | inl p ↦ ground arith
  | inr ((l, t), p) ↦ ground (arith, read_line-shorter s l t p)
]

find_length_by :
    (f g : ℕ) (s : Bytes) → length s < f → length s < g → find_length f s ≡ find_length g s
unfolding find_length
find_length_by zero g s h k = absurd (omega arith)
find_length_by (suc f) zero s h k = absurd (omega arith)
find_length_by (suc f) (suc g) s h k = elim (Option-cases (read_line s)) [
  | inl p ↦ ground arith
  | inr ((line, rest), p) ↦
      let shorter = read_line-shorter s line rest p in
      let later = find_length_by f g rest (omega arith) (omega arith) in
      elim (Bool-cases (has_prefix content_length (trim_right is_eol line))) [
        | inl q ↦ ground arith
        | inr q ↦ ground (arith, later)
      ]
]

drain_header_by :
    (f g : ℕ) (s : Bytes) → length s < f → length s < g → drain_header f s ≡ drain_header g s
unfolding drain_header
drain_header_by zero g s h k = absurd (omega arith)
drain_header_by (suc f) zero s h k = absurd (omega arith)
drain_header_by (suc f) (suc g) s h k = elim (Option-cases (read_line s)) [
  | inl p ↦ ground arith
  | inr ((line, rest), p) ↦
      let shorter = read_line-shorter s line rest p in
      let later = drain_header_by f g rest (omega arith) (omega arith) in
      elim (List-cases (trim_right is_eol line)) [
        | inl q ↦ ground arith
        | inr (c, t, q) ↦ ground (arith, later)
      ]
]

-- whether the fuel was used up
abbrev pub lacks_fuel : Error → Bool
lacks_fuel (sentinel s) = str_eq s "out of fuel"
lacks_fuel _ = false

abbrev pub ran_out : {A : Type 0} → Result Error A → Bool
ran_out (err e) = lacks_fuel e
ran_out _ = false

find_length-ends : (f : ℕ) (s : Bytes) → length s < f → ran_out (find_length f s).0 ≡ false
unfolding find_length parse_length
find_length-ends zero s h = absurd (omega arith)
find_length-ends (suc f) s h = elim (Option-cases (read_line s)) [
  | inl p ↦ ground arith
  | inr ((line, rest), p) ↦
      let shorter = read_line-shorter s line rest p in
      let later = find_length-ends f rest (omega arith) in
      elim (Bool-cases (has_prefix content_length (trim_right is_eol line))) [
        | inl q ↦ ground arith
        | inr q ↦ ground (arith, later)
      ]
]

drain_header-ends : (f : ℕ) (s : Bytes) → length s < f → ran_out (drain_header f s).0 ≡ false
unfolding drain_header
drain_header-ends zero s h = absurd (omega arith)
drain_header-ends (suc f) s h = elim (Option-cases (read_line s)) [
  | inl p ↦ ground arith
  | inr ((line, rest), p) ↦
      let shorter = read_line-shorter s line rest p in
      let later = drain_header-ends f rest (omega arith) in
      elim (List-cases (trim_right is_eol line)) [
        | inl q ↦ ground arith
        | inr (c, t, q) ↦ ground (arith, later)
      ]
]

read_full-ends : (n : ℤ) (s : Bytes) → ran_out (read_full n s).0 ≡ false
unfolding read_full
read_full-ends (negsuc n) s = refl
read_full-ends (pos n) s = elim (Bool-cases (leb n (length s))) [
  | inl a ↦ rw a refl
  | inr a ↦ elim (Bool-cases (ltb max_alloc n)) [
    | inl b ↦ rw (a, b) refl
    | inr b ↦ elim (List-cases s) [ inl c ↦ rw (a, b, c) refl | inr (x, t, c) ↦ rw (a, b, c) refl ]
  ]
]

read_message-ends : (s : Bytes) → ran_out (read_message s).0 ≡ false
unfolding read_message read_full
read_message-ends s = elim (Returned-cases (find_length (suc (length s)) s)) [
  | inl (n, rest, p) ↦ elim (Returned-cases (drain_header (suc (length rest)) rest)) [
    | inl (u, t, q) ↦ rw p (rw q (read_full-ends n t))
    | inr (inl (e, t, q)) ↦
        let late = drain_header-ends (suc (length rest)) rest (omega arith) in
        rw (p, q) (rw q at late)
    | inr (inr (t, q)) ↦ rw p (rw q refl)
  ]
  | inr (inl (e, rest, p)) ↦
      let late = find_length-ends (suc (length s)) s (omega arith) in rw p (rw p at late)
  | inr (inr (rest, p)) ↦ rw p refl
]

-- Both loops of `Read` end on every input, whatever the process writes: with more fuel than the
-- input has bytes none of them uses its fuel up, and its result is the one that the model computes;
-- and `Read` itself, whatever is asked for, never ends by a lack of fuel.
pub loops-settled :
    (s : Bytes) (fuel n : ℕ) (pipe : Pipe)
    → length s < fuel
    → (find_length fuel s ≡ find_length (suc (length s)) s)
      × (ran_out (find_length fuel s).0 ≡ false)
      × (drain_header fuel s ≡ drain_header (suc (length s)) s)
      × (ran_out (drain_header fuel s).0 ≡ false)
      × (ran_out (read n pipe).0 ≡ false)
unfolding read
loops-settled s fuel n pipe h = (
  find_length_by fuel (suc (length s)) s h (omega arith),
  find_length-ends fuel s h,
  drain_header_by fuel (suc (length s)) s h (omega arith),
  drain_header-ends fuel s h,
  ground (arith, read_message-ends pipe.input),
)
