-- ===== src/Script/Blocks.antt =====
-- The lines of a statement block in `splitSQLStatements` of custom_executor.go.
use pg_migrate.Prelude.{
  ◌≡◌, refl, sym, ◌∙◌, ap, Bool, true, false, List, [], ◌∷◌, ◌++◌, All, append-nil, append_assoc,
  arith, is_nil,
}
use pg_migrate.Text.{Bytes, equal}
use pg_migrate.Text.Space.{trim_space}
use pg_migrate.Text.Lines.{newline}
use pg_migrate.Text.Unicode.{Unicode}
use pg_migrate.Directives.{statement_begin_line, statement_end_line}
use pg_migrate.Script.Silent.{Added, Added-append_statement}
use pg_migrate.Script.{Scanner, is_normal, append_statement, process_line, process_lines}

abbrev pub is_begin : Bytes → Bool
is_begin line = equal (trim_space line) statement_begin_line

abbrev pub is_end : Bytes → Bool
is_end line = equal (trim_space line) statement_end_line

-- The lines of a block, each with its newline.
abbrev pub block_text : List Bytes → Bytes
block_text [] = []
block_text (l ∷ ls) = l ++ newline ∷ block_text ls

-- The statement `text` is added, and the scanner is outside of a block.
abbrev pub closed : Scanner → Bytes → Scanner
closed s text = record (append_statement (record s { in_block = true; buf = text })) {
  in_block = false;
}

module _ (u : Unicode) (is_last_line : Bool) (line : Bytes) (s : Scanner) where
  process_line-end :
      s.in_block ≡ true
      → is_normal s.state ≡ true
      → is_end line ≡ true
      → process_line u is_last_line line s ≡ record (append_statement s) { in_block = false }
  unfolding process_line
  process_line-end inside plain ends = ground arith

  process_line-begin :
      s.in_block ≡ false
      → is_normal s.state ≡ true
      → is_begin line ≡ true
      → process_line u is_last_line line s ≡ record (append_statement s) { in_block = true }
  unfolding process_line
  process_line-begin outside plain begins = ground arith

  process_line-inside :
      s.in_block ≡ true
      → is_normal s.state ≡ true
      → is_end line ≡ false
      → process_line u is_last_line line s ≡ record s { buf = s.buf ++ line ++ newline ∷ [] }
  unfolding process_line
  process_line-inside inside plain goes_on = ground arith

module _ (u : Unicode) (last : Bytes) (rest : List Bytes) where
  process_lines-end :
      (body : List Bytes) (s : Scanner)
      → s.in_block ≡ true
      → is_normal s.state ≡ true
      → is_end last ≡ true
      → All (λ l. is_end l ≡ false) body
      → process_lines u (body ++ last ∷ rest) s
        ≡ process_lines u rest (closed s (s.buf ++ block_text body))
  unfolding process_lines append_statement
  process_lines-end [] s inside plain ends h = ap (process_lines u rest) (
      process_line-end u (is_nil rest) last s inside plain ends
      ∙ ap (λ t. closed s t) (sym (append-nil s.buf)))
  process_lines-end (l ∷ body) s inside plain ends h =
      ap (process_lines u (body ++ last ∷ rest))
        (process_line-inside u (is_nil (body ++ last ∷ rest)) l s inside plain h.0)
      ∙ process_lines-end body (record s { buf = s.buf ++ l ++ newline ∷ [] }) inside plain ends h.1
      ∙ ap (λ t. process_lines u rest (closed (record s { buf = s.buf ++ l ++ newline ∷ [] }) t))
          (append_assoc (s.buf ++ l) (newline ∷ []) (block_text body)
            ∙ append_assoc s.buf l (newline ∷ block_text body))

  -- From a begin marker to the next end marker no quote, comment or semicolon is looked at: what came
  -- before the block ends there, and the lines of the block, without the white space around them, are
  -- one statement if they say something. What came before the block, or the lines of it, are left
  -- out only if they are remarks or separators alone, or have a line of 65536 bytes or more.
  pub process_lines-block :
      (first : Bytes) (body : List Bytes) (s : Scanner)
      → s.in_block ≡ false
      → is_normal s.state ≡ true
      → is_begin first ≡ true
      → is_end last ≡ true
      → All (λ l. is_end l ≡ false) body
      → (before after : List Bytes) × Added s.statements (trim_space s.buf) before
        × Added before (trim_space (block_text body)) after
        × (process_lines u (first ∷ body ++ last ∷ rest) s
            ≡ process_lines u rest (record s { statements = after; buf = []; in_block = false }))
  unfolding process_lines append_statement
  process_lines-block first body s outside plain begins ends h = (
    (append_statement s).statements,
    (closed (append_statement s) (block_text body)).statements,
    Added-append_statement s,
    Added-append_statement (record (append_statement s) { in_block = true; buf = block_text body }),
    ap (process_lines u (body ++ last ∷ rest))
          (process_line-begin u (is_nil (body ++ last ∷ rest)) first s outside plain begins)
        ∙ process_lines-end body (record (append_statement s) { in_block = true }) refl plain ends
            h,
  )
