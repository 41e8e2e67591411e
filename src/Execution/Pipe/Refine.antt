-- ===== src/Execution/Pipe/Refine.antt =====
-- internal/execution/supervisor/adapter_rpc_pipe.go: the pipe implements a queue of messages.
use shimmy_wasm_go.Base.{
  ℕ, ◌<◌, ◌^◌, ◌≡◌, refl, ap, Option, none, some, List, [], ◌∷◌, ◌++◌, map, Bytes, length, take,
  drop, All,
}
use shimmy_wasm_go.Exec.{Error, Result, ok, err}
use shimmy_wasm_go.Execution.Pipe.{Pipe, read, header, eof}
use shimmy_wasm_go.Execution.Pipe.Frame.{
  IsStray, lines_text, read_message-write, read_message-stray,
}

-- The specification: the messages that the process has sent, of which the first may be read in
-- part. It knows neither headers nor other lines.
pub record Inbox : Type 0 where
  pub current : Bytes
  pub waiting : List Bytes

-- a read of `n` bytes at most, with `none` at the end
unfoldable pub receive : ℕ → Inbox → Option Bytes × Inbox
receive n inbox = elim inbox.current [
  | c ∷ s ↦ (some (take n (c ∷ s)), record inbox { current = drop n (c ∷ s) })
  | [] ↦ elim inbox.waiting [
    | p ∷ ps ↦ (some (take n p), record { current = drop n p; waiting = ps })
    | [] ↦ (none, inbox)
  ]
]

abbrev pub answer : Option Bytes → Result Error Bytes
answer none = err eof
answer (some chunk) = ok chunk

-- What the process writes: messages as `Write` frames them, each behind lines that it prints.
abbrev pub encode : List (List Bytes × Bytes) → List Bytes → Bytes
encode [] printed = lines_text printed
encode ((lines, p) ∷ ms) printed =
    lines_text lines ++ (header (length p) ++ (p ++ encode ms printed))

abbrev pub AreSent : List (List Bytes × Bytes) → Type 0
AreSent = All (λ m. (length m.1 < 2 ^ 63) × All IsStray m.0)

abbrev pub Represents : Pipe → Inbox → Type 0
Represents pipe inbox =
    (ms : List (List Bytes × Bytes)) × (printed : List Bytes) × AreSent ms
    × All IsStray printed
    × (map (λ m. m.1) ms ≡ inbox.waiting)
    × (pipe ≡ record { buf = inbox.current; input = encode ms printed })

abbrev Refined : ℕ → Pipe → Inbox → Type 0
Refined n pipe inbox =
    ((read n pipe).0 ≡ answer (receive n inbox).0) × Represents (read n pipe).1 (receive n inbox).1

read-Refined :
    (n : ℕ) (current : Bytes) (ms : List (List Bytes × Bytes)) (printed : List Bytes)
    → AreSent ms
    → All IsStray printed
    → Refined n
        (record { buf = current; input = encode ms printed })
        (record { current = current; waiting = map (λ m. m.1) ms })
unfolding read receive
read-Refined n (c ∷ s) ms printed h k = (refl, (ms, printed, h, k, refl, refl))
read-Refined n [] [] printed h k =
    rw (read_message-stray printed k) (refl, ([], [], tt, tt, refl, refl))
read-Refined n [] ((lines, p) ∷ ms) printed h k =
    rw (read_message-write lines p (encode ms printed) h.0.0 h.0.1)
      (refl, (ms, printed, h.1, k, refl, refl))

-- One read of any size returns what the queue gives, and leaves the pipe holding its rest.
pub read_refines :
    (n : ℕ) (pipe : Pipe) (inbox : Inbox) → Represents pipe inbox → Refined n pipe inbox
read_refines n pipe inbox (ms, printed, h, k, e, p) =
    rw p (rw (← e) (read-Refined n inbox.current ms printed h k))

-- what reads of the given sizes return, one behind the other
unfoldable pub read_each : List ℕ → Pipe → List (Result Error Bytes)
unfolding read
read_each [] pipe = []
read_each (n ∷ ns) pipe = let r = read n pipe in r.0 ∷ read_each ns r.1

unfoldable pub receive_each : List ℕ → Inbox → List (Option Bytes)
unfolding receive
receive_each [] inbox = []
receive_each (n ∷ ns) inbox = let r = receive n inbox in r.0 ∷ receive_each ns r.1

-- The pipe implements the queue: of a process that has sent messages, with lines that are no
-- headers printed before, between and behind them, the reads of whatever sizes return what the
-- queue of the messages gives, and the end of the input behind the last one.
pub read_each_refines :
    (ns : List ℕ) (pipe : Pipe) (inbox : Inbox)
    → Represents pipe inbox
    → read_each ns pipe ≡ map answer (receive_each ns inbox)
unfolding read_each receive_each
read_each_refines [] pipe inbox v = refl
read_each_refines (n ∷ ns) pipe inbox v =
    let r = read_refines n pipe inbox v in
    rw r.0 (ap (λ z. answer (receive n inbox).0 ∷ z) (read_each_refines ns _ _ r.1))
