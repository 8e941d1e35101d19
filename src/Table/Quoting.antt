-- ===== src/Table/Quoting.antt =====
-- `quoteIdentifier` of internal/migrator/table.go, and a reader of quoted identifiers.
use pg_migrate.Prelude.{
  ℕ, ◌≡◌, refl, sym, ◌∙◌, ap, inl, inr, Bool, true, false, Option, none, some, [], ◌∷◌, ◌++◌,
  if◌then◌else◌, is_nil, length, ltb, ◌==◌, arith, Bool-cases, append_assoc,
}
use pg_migrate.Result.{ok, err, err≢ok, ok_injective}
use pg_migrate.Text.{Bytes}
use pg_migrate.Text.Space.{has_byte}
use pg_migrate.Table.{NameError, quote, double_quotes, quote_identifier}

abbrev prepend : ℕ → Option (Bytes × Bytes) → Option (Bytes × Bytes)
prepend c none = none
prepend c (some (s, rest)) = some (c ∷ s, rest)

-- What stands behind an opening quote: the identifier up to the quote that closes it, where two
-- quotes stand for one, and what follows. It is `none` if no quote closes it.
unfoldable pub read_quoted : Bytes → Option (Bytes × Bytes)
read_quoted [] = none
read_quoted (c ∷ []) = if c == quote then some ([], []) else none
read_quoted (c ∷ d ∷ s) =
    let doubled = read_quoted s in
    let plain = read_quoted (d ∷ s) in
    if c == quote
    then (if d == quote then prepend quote doubled else some ([], d ∷ s))
    else prepend c plain

-- A text that does not go on with a quote.
abbrev pub is_apart : Bytes → Bool
is_apart [] = true
is_apart (c ∷ s) = if c == quote then false else true

read_quoted_plain :
    (c : ℕ) (s : Bytes) → (c == quote) ≡ false → read_quoted (c ∷ s) ≡ prepend c (read_quoted s)
unfolding read_quoted
read_quoted_plain c [] h = rw h refl
read_quoted_plain c (d ∷ s) h = rw h refl

read_quoted-double_quotes :
    (s rest : Bytes)
    → is_apart rest ≡ true
    → read_quoted (double_quotes s ++ quote ∷ rest) ≡ some (s, rest)
unfolding read_quoted double_quotes
read_quoted-double_quotes [] [] h = refl
read_quoted-double_quotes [] (d ∷ rest) h = ground arith
read_quoted-double_quotes (c ∷ s) rest h = elim (Bool-cases (c == quote)) [
  | inl e ↦ rw e (rw (read_quoted-double_quotes s rest h) (ground arith))
  | inr e ↦ rw e (
      read_quoted_plain c (double_quotes s ++ quote ∷ rest) e
      ∙ ap (prepend c) (read_quoted-double_quotes s rest h))
]

-- What a text is as a quoted identifier, with what follows it.
abbrev pub read_identifier : Bytes → Option (Bytes × Bytes)
read_identifier [] = none
read_identifier (c ∷ s) = if c == quote then read_quoted s else none

-- Whatever a name holds, its quoted form, with any text behind it that does not go on with a
-- quote, reads as one quoted identifier: the name, and that text is what follows it.
pub quote_identifier_reads :
    (s rest : Bytes) {q : Bytes}
    → quote_identifier s ≡ ok q
    → is_apart rest ≡ true
    → read_identifier (q ++ rest) ≡ some (s, rest)
unfolding quote_identifier
quote_identifier_reads s rest {q} h apart = checks (is_nil s) (ltb 63 (length s)) (has_byte s 0) h
  where
    checks :
        (a b c : Bool)
        → (if a
            then err NameError.empty_name
            else if b
            then err NameError.too_long
            else if c
            then err NameError.has_nul
            else ok (quote ∷ double_quotes s ++ quote ∷ []))
          ≡ ok q
        → read_identifier (q ++ rest) ≡ some (s, rest)
    checks true b c e = err≢ok e
    checks false true c e = err≢ok e
    checks false false true e = err≢ok e
    checks false false false e = rw (sym (ok_injective e)) (
        ap read_quoted (append_assoc (double_quotes s) (quote ∷ []) rest)
        ∙ read_quoted-double_quotes s rest apart)
