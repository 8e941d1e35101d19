-- ===== src/Dsn/Reading.antt =====
-- A reader of connection strings in keyword/value form, by the rules of libpq.
use pg_migrate.Prelude.{
  ℕ, zero, suc, ◌-◌, Bool, true, false, not, ◌&&◌, ◌||◌, Option, none, some, List, [], ◌∷◌, ◌++◌,
  if◌then◌else◌, leb, ltb, ◌==◌,
}
use pg_migrate.Text.{Bytes}
use pg_migrate.Text.Unicode.{decode_rune}
use pg_migrate.Dsn.{Setting}

abbrev pub is_blank : ℕ → Bool
is_blank c = c == b' ' || leb 0x09 c && leb c 0x0d

-- Where a reader of settings is: before a key; in a key; before a value; in a value without quotes; in
-- one with quotes. The last two say whether a backslash stands before.
pub data Place : Type 0 where
  between in_key before_value : Place
  plain quoted : Bool → Place

abbrev pub ended : Bytes → Bytes → Option (List Setting) → Option (List Setting)
ended key value none = none
ended key value (some ps) = some ((key, value) ∷ ps)

-- The settings of a text in libpq's keyword/value form: blanks stand between settings; a value ends at
-- a blank, or if it begins with a quote, at the next quote; a backslash takes the next character as
-- it is. `none` if the text has another form.
unfoldable pub read_settings : Place → Bytes → Bytes → Bytes → Option (List Setting)
read_settings between key value [] = some []
read_settings in_key key value [] = none
read_settings before_value key value [] = some ((key, []) ∷ [])
read_settings (plain escaped) key value [] = some ((key, value) ∷ [])
read_settings (quoted escaped) key value [] = none
read_settings between key value (c ∷ s) =
    let next =
      read_settings (if is_blank c then between else in_key) (if is_blank c then [] else c ∷ []) []
        s in
    next
read_settings in_key key value (c ∷ s) =
    read_settings (if c == b'=' then before_value else in_key)
      (if c == b'=' then key else key ++ c ∷ []) [] s
read_settings before_value key value (c ∷ s) =
    let rest = read_settings between [] [] s in
    let quotes = read_settings (quoted false) key [] s in
    let bare = read_settings (plain (c == b'\\')) key (if c == b'\\' then [] else c ∷ []) s in
    if is_blank c then ended key [] rest else if c == b'\'' then quotes else bare
read_settings (plain true) key value (c ∷ s) = read_settings (plain false) key (value ++ c ∷ []) s
read_settings (plain false) key value (c ∷ s) =
    let rest = read_settings between [] [] s in
    let more =
      read_settings (plain (c == b'\\')) key (if c == b'\\' then value else value ++ c ∷ []) s in
    if is_blank c then ended key value rest else more
read_settings (quoted true) key value (c ∷ s) = read_settings (quoted false) key (value ++ c ∷ []) s
read_settings (quoted false) key value (c ∷ s) =
    let rest = read_settings between [] [] s in
    let more =
      read_settings (quoted (c == b'\\')) key (if c == b'\\' then value else value ++ c ∷ []) s in
    if c == b'\'' then ended key value rest else more

unfoldable pub read_dsn : Bytes → Option (List Setting)
unfolding read_settings
read_dsn s = read_settings between [] [] s

-- A text of whole UTF-8 characters; `skip` bytes of the character at hand are still to come.
unfoldable pub is_utf8 : ℕ → Bytes → Bool
is_utf8 zero [] = true
is_utf8 (suc k) [] = false
is_utf8 (suc k) (c ∷ s) = leb 0x80 c && is_utf8 k s
is_utf8 zero (c ∷ s) =
    let width = (decode_rune (c ∷ s)).1 in
    let rest = is_utf8 (width - 1) s in
    let one = is_utf8 zero s in if ltb c 0x80 then one else ltb 1 width && rest

-- A value that the string can carry: whole characters, and no blank but spaces.
unfoldable pub is_carried : Bytes → Bool
is_carried [] = true
is_carried (c ∷ s) = (c == b' ' || not (is_blank c)) && is_carried s

-- a key: neither a blank nor an equals sign in it
abbrev pub is_key : Bytes → Bool
is_key [] = true
is_key (c ∷ s) = not (is_blank c) && not (c == b'=') && is_key s
