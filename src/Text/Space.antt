-- ===== src/Text/Space.antt =====
-- White space: `strings.TrimSpace`, `strings.Fields` and `strings.Trim`.
--
-- Go decodes UTF-8 and asks `unicode.IsSpace`. Its set is fixed and small, so a white space
-- character is recognised here by its bytes. A byte that begins an encoded character never
-- continues one, so the bytes are found exactly where Go's decoding finds the character.
use pg_migrate.Prelude.{
  ℕ, zero, suc, Bool, false, ◌&&◌, ◌||◌, List, [], ◌∷◌, ◌++◌, reverse, leb, ◌==◌, if◌then◌else◌,
}
use pg_migrate.Text.{Bytes}

abbrev is_ascii_space : ℕ → Bool
is_ascii_space c = leb 0x09 c && leb c 0x0d || c == 0x20

-- U+0085 and U+00A0
abbrev is_space_2 : ℕ → ℕ → Bool
is_space_2 a b = a == 0xc2 && (b == 0x85 || b == 0xa0)

-- U+1680, U+2000 to U+200A, U+2028, U+2029, U+202F, U+205F and U+3000
abbrev is_space_3 : ℕ → ℕ → ℕ → Bool
is_space_3 a b c =
    a == 0xe1 && b == 0x9a && c == 0x80
    || a == 0xe2
      && (b == 0x80 && (leb 0x80 c && leb c 0x8a || c == 0xa8 || c == 0xa9 || c == 0xaf)
          || b == 0x81 && c == 0x9f)
    || a == 0xe3 && b == 0x80 && c == 0x80

-- How many bytes the white space character at the front has; 0 if there is none.
unfoldable pub space_width : Bytes → ℕ
space_width [] = 0
space_width (a ∷ []) = if is_ascii_space a then 1 else 0
space_width (a ∷ b ∷ []) = if is_ascii_space a then 1 else if is_space_2 a b then 2 else 0
space_width (a ∷ b ∷ c ∷ s) =
    if is_ascii_space a then 1 else if is_space_2 a b then 2 else if is_space_3 a b c then 3 else 0

-- The same at the end of a string that is given in reverse.
unfoldable pub space_width_back : Bytes → ℕ
space_width_back [] = 0
space_width_back (a ∷ []) = if is_ascii_space a then 1 else 0
space_width_back (b ∷ a ∷ []) = if is_ascii_space b then 1 else if is_space_2 a b then 2 else 0
space_width_back (c ∷ b ∷ a ∷ s) =
    if is_ascii_space c then 1 else if is_space_2 b c then 2 else if is_space_3 a b c then 3 else 0

-- Drops characters from the front while `width` finds one; the number is what is left to skip of
-- the character at hand.
unfoldable pub trim_front : (Bytes → ℕ) → ℕ → Bytes → Bytes
trim_front width skip [] = []
trim_front width (suc k) (c ∷ s) = trim_front width k s
trim_front width zero (c ∷ s) = elim (width (c ∷ s)) [ zero ↦ c ∷ s | suc k ↦ trim_front width k s ]

-- `strings.TrimSpace`
unfoldable pub trim_space : Bytes → Bytes
unfolding trim_front space_width space_width_back
trim_space s = reverse (trim_front space_width_back 0 (reverse (trim_front space_width 0 s)))

abbrev flush : Bytes → List Bytes → List Bytes
flush [] rest = rest
flush (c ∷ field) rest = (c ∷ field) ∷ rest

unfoldable pub fields_from : ℕ → Bytes → Bytes → List Bytes
fields_from skip field [] = flush field []
fields_from (suc k) field (c ∷ s) = fields_from k field s
fields_from zero field (c ∷ s) = elim (space_width (c ∷ s)) [
  | zero ↦ fields_from zero (field ++ c ∷ []) s
  | suc k ↦ flush field (fields_from k [] s)
]

-- `strings.Fields`
unfoldable pub fields : Bytes → List Bytes
unfolding fields_from space_width
fields = fields_from 0 []

unfoldable pub has_byte : Bytes → ℕ → Bool
has_byte [] c = false
has_byte (x ∷ cutset) c = x == c || has_byte cutset c

unfoldable pub trim_left : Bytes → Bytes → Bytes
unfolding has_byte
trim_left cutset [] = []
trim_left cutset (c ∷ s) =
    let rest = trim_left cutset s in if has_byte cutset c then rest else c ∷ s

-- `strings.Trim`, for a cutset of ASCII characters
unfoldable pub trim : Bytes → Bytes → Bytes
unfolding trim_left
trim cutset s = reverse (trim_left cutset (reverse (trim_left cutset s)))
