-- ===== src/Execution/Pipe/Pieces.antt =====
-- `Read` into a buffer that is smaller than the message.
use shimmy_wasm_go.Base.{
  ℕ, ◌≤◌, ◌≡◌, ◌≢◌, refl, ◌⊎◌, inl, inr, [], ◌∷◌, ◌++◌, length, take, length-take, take-append-drop,
  Bytes, arith,
}
use shimmy_wasm_go.Exec.{ok, Returned-cases}
use shimmy_wasm_go.Execution.Pipe.{Pipe, read, read_message}

-- the chunk and the new overflow make up the old overflow, or else the next message
abbrev pub Continues : Pipe → Bytes → Pipe → Type 0
Continues pipe chunk pipe' =
    ((pipe.buf ≢ []) × (chunk ++ pipe'.buf ≡ pipe.buf) × (pipe'.input ≡ pipe.input))
    ⊎ ((pipe.buf ≡ []) × (read_message pipe.input ≡ (ok (chunk ++ pipe'.buf), pipe'.input)))

length-take-le : (n : ℕ) (s : Bytes) → length (take n s) ≤ n
length-take-le n s = omega (arith, length-take n s)

pieces_by :
    (n : ℕ) (pipe : Pipe) (chunk : Bytes) (pipe' : Pipe) (b : Bytes)
    → pipe.buf ≡ b
    → read n pipe ≡ (ok chunk, pipe')
    → (length chunk ≤ n) × Continues pipe chunk pipe'
unfolding read
pieces_by n pipe chunk pipe' [] p e = elim (Returned-cases (read_message pipe.input)) [
  | inl (content, rest, q) ↦ ground (arith, take-append-drop n content, length-take-le n content)
  | inr (inl (x, rest, q)) ↦ ground arith
  | inr (inr (rest, q)) ↦ ground arith
]
pieces_by n pipe chunk pipe' (c ∷ s) p e =
    ground (arith, take-append-drop n (c ∷ s), length-take-le n (c ∷ s))

-- `Read` gives out a message in pieces of at most the size that was asked for, and loses none of
-- it: a chunk and the overflow behind it make up the overflow before, or else the next message.
pub read_pieces :
    (n : ℕ) (pipe : Pipe) (chunk : Bytes) (pipe' : Pipe)
    → read n pipe ≡ (ok chunk, pipe')
    → (length chunk ≤ n) × Continues pipe chunk pipe'
read_pieces n pipe chunk pipe' e = pieces_by n pipe chunk pipe' pipe.buf refl e
