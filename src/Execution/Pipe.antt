-- ===== src/Execution/Pipe.antt =====
-- internal/execution/supervisor/adapter_rpc_pipe.go. The read side of the process is the list of
-- the bytes that it will still write before it closes its output: how the reader buffers them does
-- not show.
pub mod Space
pub mod Numeral
pub mod Frame
pub mod Pieces
pub mod Stream
pub mod Refine
pub mod Fuel
use shimmy_wasm_go.Base.{
  ℕ, zero, suc, ◌+◌, ◌-◌, ◌^◌, ◌<◌, min, String, Bool, true, false, ◌&&◌, ◌||◌, Option, none, some,
  List, [], ◌∷◌, ◌++◌, length, take, drop, Bytes, codes, ltb, leb, ◌==◌, if◌then◌else◌, has_prefix,
  trim_right,
}
use shimmy_wasm_go.Base.Decimal.{decimal, scan}
use shimmy_wasm_go.Exec.{Error, sentinel, message, Result, ok, err, panics, Exec, lift, pure, ◌>>=◌}
use shimmy_wasm_go.Json.{ℤ, pos, negsuc}
use Space.{trim_space}

abbrev pub eof : Error
eof = sentinel "EOF"

-- The fuel of a loop is used up, which no error of the code is: see `Fuel`.
abbrev pub out_of_fuel : Error
out_of_fuel = sentinel "out of fuel"

abbrev pub newline : ℕ
newline = 10

abbrev pub is_eol : ℕ → Bool
is_eol c = c == 13 || c == newline

-- `reader.ReadString('\n')`: the line with its end, and what is behind it. `none` is the end of
-- the input, where what was left is read and dropped.
unfoldable pub read_line : Bytes → Option (Bytes × Bytes)
read_line [] = none
read_line (c ∷ s) =
    if c == newline
    then some (c ∷ [], s)
    else elim (read_line s) [ none ↦ none | some (line, rest) ↦ some (c ∷ line, rest) ]

abbrev pub content_length : Bytes
content_length = codes "Content-Length:"

-- `strings.SplitN(line, ":", 2)[1]`, with `none` where there is one part
unfoldable pub after_colon : Bytes → Option Bytes
after_colon [] = none
after_colon (c ∷ s) = if c == b':' then some s else after_colon s

-- `strconv.Atoi`, for an int of 64 bits
abbrev signed : Bool → ℕ → ℤ
signed false n = pos n
signed true zero = pos 0
signed true (suc n) = negsuc n

abbrev in_range : Bool → ℕ → Option ℤ
in_range false n = if ltb n (2 ^ 63) then some (pos n) else none
in_range true n = if leb n (2 ^ 63) then some (signed true n) else none

abbrev scan_digits : Bool → Bytes → Option ℤ
scan_digits negative [] = none
scan_digits negative (c ∷ s) = elim (scan (c ∷ s) 0) [ none ↦ none | some n ↦ in_range negative n ]

unfoldable pub atoi : Bytes → Option ℤ
unfolding scan
atoi [] = none
atoi (c ∷ s) =
    if c == b'-'
    then scan_digits true s
    else if c == b'+'
    then scan_digits false s
    else scan_digits false (c ∷ s)

-- What reading a message gives, with the input behind it.
abbrev pub Reading : Type 0 → Type 0
Reading A = Result Error A × Bytes

-- the value of a line that starts with `Content-Length:`
unfoldable pub parse_length : Bytes → Result Error ℤ
unfolding after_colon trim_space atoi
parse_length line = elim (after_colon line) [
  | none ↦ err (message "malformed Content-Length header")
  | some part ↦ elim (atoi (trim_space part)) [
    | none ↦ err (message "invalid Content-Length value")
    | some n ↦ ok n
  ]
]

-- The first loop of `Read`: lines that are no `Content-Length:` are skipped. Each line has a byte,
-- so the length of the input is fuel enough.
unfoldable pub find_length : ℕ → Bytes → Reading ℤ
unfolding read_line trim_right has_prefix parse_length
find_length zero input = (err out_of_fuel, input)
find_length (suc fuel) input = elim (read_line input) [
  | none ↦ (err eof, [])
  | some (line, rest) ↦
      if has_prefix content_length (trim_right is_eol line)
      then (parse_length (trim_right is_eol line), rest)
      else find_length fuel rest
]

-- The second loop: the header ends with an empty line.
unfoldable pub drain_header : ℕ → Bytes → Reading (Unit {0})
unfolding read_line trim_right
drain_header zero input = (err out_of_fuel, input)
drain_header (suc fuel) input = elim (read_line input) [
  | none ↦ (err eof, [])
  | some (line, rest) ↦ elim (trim_right is_eol line) [
    | [] ↦ (ok tt, rest)
    | c ∷ s ↦ drain_header fuel rest
  ]
]

-- What Go can allocate at once on a 64-bit system, in bytes.
abbrev pub max_alloc : ℕ
max_alloc = 2 ^ 48

-- `make([]byte, n)` and `io.ReadFull`: a length that is negative or cannot be allocated panics. No
-- input has as many bytes as cannot be allocated, so that a length that the input has is one that
-- can.
unfoldable pub read_full : ℤ → Bytes → Reading Bytes
read_full (negsuc n) input = (panics, input)
read_full (pos n) input =
    if leb n (length input)
    then (ok (take n input), drop n input)
    else if ltb max_alloc n
    then (panics, input)
    else elim input [ [] ↦ (err eof, []) | c ∷ s ↦ (err (message "unexpected EOF"), []) ]

-- One message of the process.
unfoldable pub read_message : Bytes → Reading Bytes
unfolding find_length drain_header read_full
read_message input =
    (find_length (suc (length input)) >>= λ n.
    (λ rest. drain_header (suc (length rest)) rest) >>= λ _. read_full n)
      input

-- `headerPrefixPipe`, without the write side: the overflow, and the input that is not read.
pub record Pipe : Type 0 where
  pub buf : Bytes
  pub input : Bytes

abbrev deliver : ℕ → Reading Bytes → Result Error Bytes × Pipe
deliver n (ok content, rest) = (ok (take n content), record { buf = drop n content; input = rest })
deliver n (err e, rest) = (err e, record { buf = []; input = rest })
deliver n (panics, rest) = (panics, record { buf = []; input = rest })

-- `Read(p)` with `len(p) = n`: the bytes that are copied into `p`.
unfoldable pub read : ℕ → Pipe → Result Error Bytes × Pipe
unfolding read_message
read n pipe = elim pipe.buf [
  | [] ↦ deliver n (read_message pipe.input)
  | c ∷ s ↦ (ok (take n (c ∷ s)), record pipe { buf = drop n (c ∷ s) })
]

abbrev pub header : ℕ → Bytes
header n = codes "Content-Length: " ++ (decimal n ++ 13 ∷ 10 ∷ 13 ∷ 10 ∷ [])

-- `Write(p)`, over the write of the wrapped stream
unfoldable pub write : {W : Type 0} → (Bytes → Exec Error W ℕ) → Bytes → Exec Error W ℕ
unfolding decimal
write stdio_write p = stdio_write (header (length p)) >>= λ _. stdio_write p

-- Close of the wrapped stream is passed on.
abbrev pub close : {W : Type 0} → Exec Error W (Unit {0}) → Exec Error W (Unit {0})
close stdio_close = stdio_close
