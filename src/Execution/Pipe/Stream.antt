-- ===== src/Execution/Pipe/Stream.antt =====
-- internal/execution/supervisor/adapter_rpc_pipe.go: a run of reads on a stream of messages.
use shimmy_wasm_go.Base.{
  ℕ, zero, suc, ◌≤◌, ◌<◌, ◌^◌, ◌≡◌, refl, ap, ◌∙◌, List, [], ◌∷◌, ◌++◌, map, Bytes, length, take,
  drop, All, arith,
}
use shimmy_wasm_go.Exec.{Error, Result, ok}
use shimmy_wasm_go.Execution.Pipe.{Pipe, read, read_message, header, deliver}
use shimmy_wasm_go.Execution.Pipe.Frame.{read_message-write}

-- the messages as `Write` frames them, one behind the other
abbrev pub frames : List Bytes → Bytes
frames [] = []
frames (p ∷ ps) = header (length p) ++ (p ++ frames ps)

abbrev pub size : List Bytes → ℕ
size [] = zero
size (p ∷ ps) = suc (size ps)

-- What reads of `n` bytes return, and the pipe behind them.
unfoldable pub reads : ℕ → ℕ → Pipe → List (Result Error Bytes) × Pipe
unfolding read
reads n zero pipe = ([], pipe)
reads n (suc k) pipe =
    let first = read n pipe in let rest = reads n k first.1 in (first.0 ∷ rest.0, rest.1)

take_whole : (n : ℕ) (p : Bytes) → length p ≤ n → (take n p ≡ p) × (drop n p ≡ [])
take_whole zero [] h = (refl, refl)
take_whole (suc n) [] h = (refl, refl)
take_whole zero (c ∷ p) h = absurd (ground arith)
take_whole (suc n) (c ∷ p) h = ground (arith, take_whole n p)

read-frame :
    (n : ℕ) (p t : Bytes)
    → length p ≤ n
    → length p < 2 ^ 63
    → read n (record { buf = []; input = header (length p) ++ (p ++ t) })
      ≡ (ok p, record { buf = []; input = t })
unfolding read
read-frame n p t h l =
    let got : read_message (header (length p) ++ (p ++ t)) ≡ (ok p, t) =
      read_message-write [] p t l tt in
    ap (deliver n) got
    ∙ ap (λ z. (ok z, record { buf = drop n p; input = t })) (take_whole n p h).0
    ∙ ap (λ z. (ok p, record { buf = z; input = t })) (take_whole n p h).1

-- Of messages that were written one behind the other, each one of at most `n` bytes, the reads of
-- `n` bytes return one message each, in order, and leave nothing.
pub reads-frames :
    (n : ℕ) (ps : List Bytes)
    → All (λ p. (length p ≤ n) × (length p < 2 ^ 63)) ps
    → reads n (size ps) (record { buf = []; input = frames ps })
      ≡ (map (λ p. ok p) ps, record { buf = []; input = [] })
unfolding reads
reads-frames n [] h = refl
reads-frames n (p ∷ ps) h =
    let first = read-frame n p (frames ps) h.0.0 h.0.1 in
    let rest = reads-frames n ps h.1 in
    ap (λ z. (z.0 ∷ (reads n (size ps) z.1).0, (reads n (size ps) z.1).1)) first
    ∙ ap (λ z. (ok p ∷ z.0, z.1)) rest
