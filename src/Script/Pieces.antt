-- ===== src/Script/Pieces.antt =====
-- The text of a script and the pieces that splitSQLStatements of custom_executor.go makes of it.
use pg_migrate.Prelude.{
  ℕ, ◌≡◌, refl, sym, ◌∙◌, ap, inl, inr, Bool, true, false, List, [], ◌∷◌, ◌++◌, append-nil,
  append_assoc, All, arith, is_nil, if◌then◌else◌, ◌==◌, Bool-cases,
}
use mathlib.Core.Path.{subst}
use pg_migrate.Result.{ok}
use pg_migrate.Text.{Bytes}
use pg_migrate.Text.Space.{trim_space}
use pg_migrate.Text.Lines.{newline, lines, lines-cut_head, cut_head, cons_first}
use pg_migrate.Text.Unicode.{Unicode}
use pg_migrate.Script.{
  Scanner, append_statement, scan_line, process_line, process_lines, start, finish,
  split_sql_statements,
}
use pg_migrate.Script.Blocks.{is_begin}
use pg_migrate.Script.{is_empty_statement}
use pg_migrate.Script.Silent.{Chosen, empty-SaysNothing, nonempty-SaysSomething}
use pg_migrate.Script.Cut.{
  joined, spoken, IsCut, IsCut-append_statement, IsCut-text, IsCut-buf, IsCut-scan_line,
}

-- The text of lines, with a newline between two of them.
abbrev ending : List Bytes → Bytes
ending [] = []
ending (l ∷ ls) = newline ∷ []

abbrev unsplit : List Bytes → Bytes
unsplit [] = []
unsplit (l ∷ ls) = l ++ (ending ls ++ unsplit ls)

unsplit-cons_first :
    (c : ℕ) (ls : List Bytes) (l : Bytes) (rest : List Bytes)
    → ls ≡ l ∷ rest
    → unsplit (cons_first c ls) ≡ c ∷ unsplit ls
unsplit-cons_first c [] l rest h = cc
unsplit-cons_first c (m ∷ ls) l rest h = refl

unsplit-empty :
    (ls : List Bytes) (l : Bytes) (rest : List Bytes)
    → ls ≡ l ∷ rest
    → unsplit ([] ∷ ls) ≡ newline ∷ unsplit ls
unsplit-empty [] l rest h = cc
unsplit-empty (m ∷ ls) l rest h = refl

unsplit-lines : (s : Bytes) → unsplit (lines s) ≡ s
unfolding lines
unsplit-lines [] = refl
unsplit-lines (c ∷ s) =
    let (more, first) = lines-cut_head s in
    elim (Bool-cases (c == newline)) [
      | inl e ↦ rw e (
          unsplit-empty (lines s) (cut_head s) more first
          ∙ ap (λ t. newline ∷ t) (unsplit-lines s)
          ∙ ap (λ d. d ∷ s) (newline_of c e))
      | inr e ↦ rw e (
          unsplit-cons_first c (lines s) (cut_head s) more first
          ∙ ap (λ t. c ∷ t) (unsplit-lines s))
    ]
  where
    newline_of : (c : ℕ) → c == newline ≡ true → newline ≡ c
    newline_of c e = ground arith

process_line-plain :
    (u : Unicode) (last : Bool) (line : Bytes) (s : Scanner)
    → is_begin line ≡ false
    → s.in_block ≡ false
    → process_line u last line s ≡ (
        let scanned = scan_line u 0 [] [] line s in
        if last then scanned else record scanned { buf = scanned.buf ++ newline ∷ [] })
unfolding process_line
process_line-plain u last line s plain outside = ground arith

IsCut-process_line :
    (u : Unicode) (rest : List Bytes) (line text : Bytes) (s : Scanner)
    → is_begin line ≡ false
    → IsCut text s
    → IsCut (text ++ line ++ ending rest) (process_line u (is_nil rest) line s)
IsCut-process_line u rest line text s plain h =
    subst (λ t. IsCut (text ++ line ++ ending rest) t)
      (sym (process_line-plain u (is_nil rest) line s plain h.outside)) (ended rest)
  where
    scanned : IsCut (text ++ line) (scan_line u 0 [] [] line s)
    scanned =
        IsCut-text (ap (λ t. t ++ line) (append-nil text)) (IsCut-scan_line u 0 [] [] line text s h)

    ended :
        (rest : List Bytes)
        → IsCut (text ++ line ++ ending rest) (
            let t = scan_line u 0 [] [] line s in
            if is_nil rest then t else record t { buf = t.buf ++ newline ∷ [] })
    ended [] = IsCut-text (sym (append-nil (text ++ line))) scanned
    ended (l ∷ ls) = IsCut-buf (newline ∷ []) _ scanned refl refl refl

IsCut-process_lines :
    (u : Unicode) (ls : List Bytes) (text : Bytes) (s : Scanner)
    → All (λ l. is_begin l ≡ false) ls
    → IsCut text s
    → IsCut (text ++ unsplit ls) (process_lines u ls s)
unfolding process_lines
IsCut-process_lines u [] text s plain h = IsCut-text (sym (append-nil text)) h
IsCut-process_lines u (l ∷ ls) text s plain h =
    IsCut-text
      (append_assoc (text ++ l) (ending ls) (unsplit ls)
        ∙ append_assoc text l (ending ls ++ unsplit ls))
      (IsCut-process_lines u ls (text ++ l ++ ending ls) _ plain.1
        (IsCut-process_line u ls l text s plain.0 h))

finish-outside : (s : Scanner) → s.in_block ≡ false → finish s ≡ ok (append_statement s).statements
finish-outside s h = rw h refl

Chosen-spoken : (ps : List Bytes) → Chosen ps (spoken ps)
Chosen-spoken [] = refl
Chosen-spoken (p ∷ ps) = elim (Bool-cases (is_empty_statement (trim_space p))) [
  | inl e ↦ rw e (inr (empty-SaysNothing (trim_space p) e, Chosen-spoken ps))
  | inr e ↦ rw e (inl (spoken ps, refl, nonempty-SaysSomething (trim_space p) e, Chosen-spoken ps))
]

-- A script without a line that begins a block is always split. It is cut into pieces that together are
-- the script, and the statements are pieces in their order, without the white space around them. A
-- piece is a statement only if it says something, and is left out only if it is separators alone, or
-- blank lines and line comments alone, or has a line of 65536 bytes or more.
pub split_sql_statements-pieces :
    (u : Unicode) (script : Bytes)
    → All (λ l. is_begin l ≡ false) (lines script)
    → (pieces : List Bytes) × (joined pieces ≡ script)
      × (stmts : List Bytes) × (split_sql_statements u script ≡ ok stmts)
      × Chosen pieces stmts
unfolding split_sql_statements append_statement
split_sql_statements-pieces u script plain =
    let cut = IsCut-append_statement _ _ (
      IsCut-process_lines u (lines script) [] start plain
        (record { pieces = []; whole = refl; said = refl; outside = refl })) in
    (
      cut.pieces,
      sym (append-nil (joined cut.pieces)) ∙ cut.whole ∙ unsplit-lines script,
      spoken cut.pieces,
      finish-outside (process_lines u (lines script) start) cut.outside ∙ ap ok cut.said,
      Chosen-spoken cut.pieces,
    )
