-- ===== src/Execution/Wasm/Adapter/Reply.antt =====
-- internal/execution/wasm/adapter.go: the reply of a guest that keeps to the ABI.
use shimmy_wasm_go.Base.{
  ℕ, ◌+◌, ◌/◌, ◌%◌, ◌^◌, ◌<◌, String, ◌≡◌, true, some, List, [], ◌∷◌, length, Bytes, arith,
}
use shimmy_wasm_go.Exec.{Error, ok, Exec}
use shimmy_wasm_go.Json.{Map}
use shimmy_wasm_go.Execution.Wasm.Adapter.{
  Guest, Spelling, uint32, little_endian, read_response, request_envelope, send, send_text,
}

-- A uint32 as four bytes, the lowest first.
abbrev pub le32 : ℕ → Bytes
le32 n = n % 256 ∷ (n / 256) % 256 ∷ (n / 65536) % 256 ∷ (n / 16777216) % 256 ∷ []

pub little_endian-le32 : (n : ℕ) → n < 2 ^ 32 → little_endian (le32 n) ≡ n
unfolding little_endian
little_endian-le32 n h = omega arith

module _ {G : Type 0} (guest : Guest G) (json : Spelling) where
  -- What the guest has in its memory at a pointer: the length of a text, and the text.
  abbrev pub Replies : G → ℕ → Bytes → Type 0
  Replies g ptr text =
      (guest.read g ptr 4 ≡ some (le32 (length text)))
      × (guest.read g (ptr + 4) (length text) ≡ some text)

  read_response-le32 :
      (g : G) (ptr : ℕ) (text : Bytes) (m : Map)
      → ptr + 4 < 2 ^ 32
      → length text < 2 ^ 32
      → Replies g ptr text
      → json.parse text ≡ ok m
      → read_response guest json g ptr ≡ ok m
  unfolding read_response
  read_response-le32 g ptr text m h l r p = grind (arith, little_endian-le32 (length text) l)

  -- If the guest's `alloc` returns a pointer for the request, the memory takes the request there,
  -- and `evaluate`, which gets the pointer and the length of the request, returns a pointer to the
  -- length of a text and the text, then the adapter returns what the text is read as.
  pub send-Replies :
      (method : String) (m x : Map) (g g1 g2 g3 : G) (alloc : ℕ → Exec Error G (List ℕ))
      (evaluate : ℕ → ℕ → Exec Error G (List ℕ)) (ptr res : ℕ) (text : Bytes)
      → guest.has_memory ≡ true
      → guest.alloc ≡ some alloc
      → guest.evaluate ≡ some evaluate
      → alloc (length (json.spell (request_envelope method m))) g ≡ (ok (ptr ∷ []), g1)
      → guest.write g1 (uint32 ptr) (json.spell (request_envelope method m)) ≡ some g2
      → evaluate ptr (length (json.spell (request_envelope method m))) g2 ≡ (ok (res ∷ []), g3)
      → res + 4 < 2 ^ 32
      → length text < 2 ^ 32
      → Replies g3 res text
      → json.parse text ≡ ok x
      → send guest json method m g ≡ (ok x, g3)
  unfolding send send_text
  send-Replies method m x g g1 g2 g3 alloc evaluate ptr res text a b c d e f h l r p =
      grind (arith, read_response-le32 g3 res text x h l r p)
