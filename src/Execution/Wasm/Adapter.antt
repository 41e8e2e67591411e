-- ===== src/Execution/Wasm/Adapter.antt =====
-- internal/execution/wasm/adapter.go: one call of the guest's `evaluate`.
pub mod Reply
pub mod Growth
use shimmy_wasm_go.Base.{
  ℕ, zero, suc, ◌+◌, ◌*◌, ◌/◌, ◌%◌, ◌^◌, ◌≤◌, ◌<◌, String, ◌≡◌, Bool, true, false, Option, none,
  some, List, [], ◌∷◌, length, Bytes,
}
use shimmy_wasm_go.Exec.{Error, message, wrap, Result, ok, err, panics, Exec}
use shimmy_wasm_go.Json.{Value, string, object, Fields, end, field, Map}
use shimmy_wasm_go.Json.Codec.{to_json, map_value}

-- A module instance: `Memory`, its `Size`, `Read` and `Write`, the two exported functions with the
-- results that they return, and `Close`.
pub record Guest (G : Type 0) : Type 0 where
  pub has_memory : Bool
  pub size : G → ℕ
  pub read : G → ℕ → ℕ → Option Bytes
  pub write : G → ℕ → Bytes → Option G
  pub alloc : Option (ℕ → Exec Error G (List ℕ))
  pub evaluate : Option (ℕ → ℕ → Exec Error G (List ℕ))
  pub close : Exec Error G (Unit {0})

-- The text of a JSON document as bytes, and what a text of a `map[string]any` is read as.
pub record Spelling : Type 0 where
  pub spell : Value → Bytes
  pub parse : Bytes → Result Error Map

abbrev pub uint32 : ℕ → ℕ
uint32 n = n % 2 ^ 32

-- `binary.LittleEndian.Uint32`
unfoldable pub little_endian : Bytes → ℕ
little_endian [] = zero
little_endian (b ∷ bs) = b + 256 * little_endian bs

-- `requestEnvelope` as JSON
abbrev pub request_envelope : String → Map → Value
request_envelope method m =
    to_json (object (field "method" (string method) (field "params" (map_value m) end)))

abbrev parsed : Result Error Map → Result Error Map
parsed (ok m) = ok m
parsed (err e) = err (wrap "wasm: unmarshal response" e)
parsed panics = panics

module _ {G : Type 0} (guest : Guest G) (json : Spelling) where
  -- the response at a pointer: four bytes with its length, and the text
  unfoldable pub read_response : G → ℕ → Result Error Map
  unfolding little_endian
  read_response g ptr = elim (guest.read g ptr 4) [
    | none ↦ err (message "wasm: failed to read response length")
    | some prefix ↦ elim (guest.read g (uint32 (ptr + 4)) (little_endian prefix)) [
      | none ↦ err (message "wasm: failed to read response bytes")
      | some text ↦ parsed (json.parse text)
    ]
  ]

  -- A function that returns no result makes the index panic.
  abbrev evaluated : Result Error (List ℕ) × G → Result Error Map × G
  evaluated (ok (p ∷ ps), g) = (read_response g (uint32 p), g)
  evaluated (ok [], g) = (panics, g)
  evaluated (err e, g) = (err (wrap "wasm: evaluate" e), g)
  evaluated (panics, g) = (panics, g)

  abbrev calling : ℕ → Bytes → G → Result Error Map × G
  calling ptr text g = elim guest.evaluate [
    | none ↦ (err (message "wasm: guest module does not export 'evaluate'"), g)
    | some f ↦ evaluated (f ptr (length text) g)
  ]

  abbrev written : ℕ → Bytes → G → Option G → Result Error Map × G
  written ptr text g none = (err (message "wasm: failed to write the request"), g)
  written ptr text g (some h) = calling ptr text h

  abbrev writing : Bool → ℕ → Bytes → G → Result Error Map × G
  writing false ptr text g = (err (message "wasm: guest module has no linear memory"), g)
  writing true ptr text g = written ptr text g (guest.write g (uint32 ptr) text)

  abbrev allocated : Bytes → Result Error (List ℕ) × G → Result Error Map × G
  allocated text (ok (p ∷ ps), g) = writing guest.has_memory p text g
  allocated text (ok [], g) = (panics, g)
  allocated text (err e, g) = (err (wrap "wasm: alloc" e), g)
  allocated text (panics, g) = (panics, g)

  -- `send` of the text
  unfoldable pub send_text : Bytes → Exec Error G Map
  unfolding read_response
  send_text text g = elim guest.alloc [
    | none ↦ (err (message "wasm: guest module does not export 'alloc'"), g)
    | some f ↦ allocated text (f (length text) g)
  ]

  -- `send`
  unfoldable pub send : String → Map → Exec Error G Map
  unfolding send_text
  send method m = send_text (json.spell (request_envelope method m))
