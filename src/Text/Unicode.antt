-- ===== src/Text/Unicode.antt =====
-- UTF-8 decoding, and the part of Go's Unicode tables that the program asks.
use pg_migrate.Prelude.{
  ℕ, ◌+◌, ◌-◌, ◌*◌, Bool, ◌&&◌, ◌||◌, [], ◌∷◌, map, leb, ltb, ◌==◌, if◌then◌else◌,
}
use pg_migrate.Text.{Bytes}

-- `unicode.IsLetter` and `unicode.IsDigit` on code points, and `strings.ToLower`. The tables are
-- Go's and are not repeated here.
pub record Unicode : Type 0 where
  pub is_letter : ℕ → Bool
  pub is_digit : ℕ → Bool
  pub to_lower : Bytes → Bytes

abbrev between : ℕ → ℕ → ℕ → Bool
between lo hi c = leb lo c && leb c hi

abbrev pub is_ascii_letter : ℕ → Bool
is_ascii_letter c = between b'a' b'z' c || between b'A' b'Z' c

abbrev pub is_ascii_digit : ℕ → Bool
is_ascii_digit c = between b'0' b'9' c

abbrev pub ascii_lower : ℕ → ℕ
ascii_lower c = if between b'A' b'Z' c then c + 32 else c

-- Tables that know ASCII alone.
abbrev pub ascii : Unicode
ascii = record {
  is_letter = is_ascii_letter;
  is_digit = is_ascii_digit;
  to_lower = map ascii_lower;
}

abbrev continues : ℕ → Bool
continues = between 0x80 0xbf

abbrev pub rune_error : ℕ
rune_error = 0xfffd

abbrev decode_2 : ℕ → ℕ → ℕ × ℕ
decode_2 a b =
    if between 0xc2 0xdf a && continues b
    then ((a - 0xc0) * 64 + (b - 0x80), 2)
    else (rune_error, 1)

-- the range of the second byte of a three-byte character
abbrev second_of_3 : ℕ → ℕ → Bool
second_of_3 a b =
    a == 0xe0 && between 0xa0 0xbf b
    || a == 0xed && between 0x80 0x9f b
    || (between 0xe1 0xec a || between 0xee 0xef a) && continues b

abbrev second_of_4 : ℕ → ℕ → Bool
second_of_4 a b =
    a == 0xf0 && between 0x90 0xbf b
    || a == 0xf4 && between 0x80 0x8f b
    || between 0xf1 0xf3 a && continues b

abbrev decode_3 : ℕ → ℕ → ℕ → ℕ × ℕ
decode_3 a b c =
    if second_of_3 a b && continues c
    then ((a - 0xe0) * 4096 + (b - 0x80) * 64 + (c - 0x80), 3)
    else decode_2 a b

abbrev decode_4 : ℕ → ℕ → ℕ → ℕ → ℕ × ℕ
decode_4 a b c d =
    if second_of_4 a b && continues c && continues d
    then ((a - 0xf0) * 262144 + (b - 0x80) * 4096 + (c - 0x80) * 64 + (d - 0x80), 4)
    else decode_3 a b c

-- `utf8.DecodeRuneInString`: the code point at the front and how many bytes it has
unfoldable pub decode_rune : Bytes → ℕ × ℕ
decode_rune [] = (rune_error, 0)
decode_rune (a ∷ []) = if ltb a 0x80 then (a, 1) else (rune_error, 1)
decode_rune (a ∷ b ∷ []) = if ltb a 0x80 then (a, 1) else decode_2 a b
decode_rune (a ∷ b ∷ c ∷ []) = if ltb a 0x80 then (a, 1) else decode_3 a b c
decode_rune (a ∷ b ∷ c ∷ d ∷ s) = if ltb a 0x80 then (a, 1) else decode_4 a b c d
