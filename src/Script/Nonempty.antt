-- ===== src/Script/Nonempty.antt =====
-- The statements of a split script and `isEmptyStatement` of custom_executor.go.
use pg_migrate.Prelude.{
  ℕ, zero, suc, ◌≡◌, sym, inl, inr, Bool, false, List, [], ◌∷◌, ◌++◌, All, All-append, arith,
  is_nil, Bool-cases,
}
use pg_migrate.Result.{ok, err≢ok, ok_injective}
use pg_migrate.Text.{Bytes}
use pg_migrate.Text.Space.{trim_space}
use pg_migrate.Text.Lines.{lines}
use pg_migrate.Text.Unicode.{Unicode}
use pg_migrate.Script.{
  after_move, Scanner, Move, go, line_comment, boundary, is_empty_statement, append_statement,
  step_in, scan_line, process_line, process_lines, start, finish, split_sql_statements,
}
use pg_migrate.Script.Cut.{Keeps, Keeps-step_in}

abbrev AllNonempty : List Bytes → Type 0
AllNonempty stmts = All (λ s. is_empty_statement s ≡ false) stmts

AllNonempty-append_statement :
    (s : Scanner) → AllNonempty s.statements → AllNonempty (append_statement s).statements
unfolding append_statement
AllNonempty-append_statement s h = elim (Bool-cases (is_empty_statement (trim_space s.buf))) [
  | inl e ↦ rw e h
  | inr e ↦ rw e (All-append _ s.statements (trim_space s.buf ∷ []) h (e, tt))
]

AllNonempty-scan_line :
    (u : Unicode) (skip : ℕ) (read seg rest : Bytes) (s : Scanner)
    → AllNonempty s.statements
    → AllNonempty (scan_line u skip read seg rest s).statements
unfolding scan_line
AllNonempty-scan_line u skip read seg [] s h = h
AllNonempty-scan_line u (suc k) read seg (c ∷ rest) s h =
    AllNonempty-scan_line u k (c ∷ read) (seg ++ c ∷ []) rest s h
AllNonempty-scan_line u zero read seg (c ∷ rest) s h =
    look (step_in s.state u read c rest s)
      (λ k t i. AllNonempty-scan_line u k (c ∷ read) (seg ++ c ∷ []) rest t i)
      (λ t i. AllNonempty-scan_line u 0 (c ∷ read) [] rest t i)
      (Keeps-step_in s.state u read c rest s)
  where
    look :
        (m : Move)
        → ((k : ℕ) (t : Scanner)
            → AllNonempty t.statements
            → AllNonempty (scan_line u k (c ∷ read) (seg ++ c ∷ []) rest t).statements)
        → ((t : Scanner)
            → AllNonempty t.statements
            → AllNonempty (scan_line u 0 (c ∷ read) [] rest t).statements)
        → Keeps s m
        → AllNonempty
            (after_move
              (λ skip seg s'. scan_line u skip (c ∷ read) seg rest s')
              seg
              c
              rest
              s
              m).statements
    look (go k t) on next same = on k t (rw same.0 h)
    look line_comment on next same = h
    look boundary on next same =
        next _ (AllNonempty-append_statement (record s { buf = s.buf ++ seg ++ c ∷ [] }) h)

AllNonempty-process_line :
    (u : Unicode) (is_last_line : Bool) (line : Bytes) (s : Scanner)
    → AllNonempty s.statements
    → AllNonempty (process_line u is_last_line line s).statements
unfolding process_line
AllNonempty-process_line u is_last_line line s h =
    ground (arith, AllNonempty-append_statement s h, AllNonempty-scan_line u 0 [] [] line s h)

AllNonempty-process_lines :
    (u : Unicode) (ls : List Bytes) (s : Scanner)
    → AllNonempty s.statements
    → AllNonempty (process_lines u ls s).statements
unfolding process_lines
AllNonempty-process_lines u [] s h = h
AllNonempty-process_lines u (l ∷ ls) s h =
    AllNonempty-process_lines u ls _ (AllNonempty-process_line u (is_nil ls) l s h)

-- Each statement of a script that is split has more in it than white space, semicolons and
-- line comments, as `isEmptyStatement` reads them.
split_sql_statements-AllNonempty :
    (u : Unicode) (script : Bytes) {stmts : List Bytes}
    → split_sql_statements u script ≡ ok stmts
    → AllNonempty stmts
unfolding split_sql_statements append_statement
split_sql_statements-AllNonempty u script {stmts} e =
    finished (process_lines u (lines script) start)
      (AllNonempty-process_lines u (lines script) start tt) e
  where
    finished : (s : Scanner) → AllNonempty s.statements → finish s ≡ ok stmts → AllNonempty stmts
    finished s h e = elim (Bool-cases s.in_block) [
      | inl b ↦ err≢ok (rw b at e)
      | inr b ↦ rw (sym (ok_injective (rw b at e))) (AllNonempty-append_statement s h)
    ]
