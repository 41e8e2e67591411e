-- ===== src/Execution/Pipe/Space.antt =====
-- `strings.TrimSpace` on bytes of UTF-8.
use shimmy_wasm_go.Base.{
  ℕ, zero, suc, Bool, ◌&&◌, ◌||◌, [], ◌∷◌, drop, length, Bytes, leb, ◌==◌, if◌then◌else◌,
}
use mathlib.Core.List.{reverse}

abbrev pub is_ascii_space : ℕ → Bool
is_ascii_space c = (leb 9 c && leb c 13) || c == 32

-- U+0085 and U+00A0
abbrev pub is_two : ℕ → ℕ → Bool
is_two a b = a == 0xC2 && (b == 0x85 || b == 0xA0)

-- the white space of three bytes: U+1680, U+2000 to U+200A, U+2028, U+2029, U+202F, U+205F, U+3000
abbrev pub is_three : ℕ → ℕ → ℕ → Bool
is_three a b c =
    (a == 0xE1 && (b == 0x9A && c == 0x80))
    || ((a == 0xE2
          && ((b == 0x80 && (leb c 0x8A && leb 0x80 c || (c == 0xA8 || (c == 0xA9 || c == 0xAF))))
              || (b == 0x81 && c == 0x9F)))
        || (a == 0xE3 && (b == 0x80 && c == 0x80)))

-- the number of bytes of the white space at the front
unfoldable pub width : (ℕ → ℕ → Bool) → (ℕ → ℕ → ℕ → Bool) → Bytes → ℕ
width two three [] = 0
width two three (a ∷ s) = if is_ascii_space a then 1 else elim s [
  | [] ↦ 0
  | b ∷ t ↦ if two a b then 2 else elim t [ [] ↦ 0 | c ∷ _ ↦ if three a b c then 3 else 0 ]
]

abbrev pub front : Bytes → ℕ
front = width is_two is_three

-- the same on the text read backwards
abbrev pub back : Bytes → ℕ
back = width (λ b a. is_two a b) (λ c b a. is_three a b c)

-- Each round drops a byte at least, so the length is fuel enough.
unfoldable pub trim : (Bytes → ℕ) → ℕ → Bytes → Bytes
trim w zero s = s
trim w (suc fuel) s = elim (w s) [ zero ↦ s | suc n ↦ trim w fuel (drop (suc n) s) ]

unfoldable pub trim_space : Bytes → Bytes
unfolding trim width
trim_space s =
    let left = trim front (length s) s in reverse (trim back (length left) (reverse left))
