-- ===== src/Script/Cut.antt =====
-- The text that a scan of custom_executor.go reads, and the pieces that it makes of it.
use pg_migrate.Prelude.{
  ℕ, zero, suc, ◌≡◌, refl, sym, ◌∙◌, ap, false, Option, none, some, List, [], ◌∷◌, ◌++◌, append-nil,
  append_assoc, arith, if◌then◌else◌,
}
use mathlib.Core.Path.{subst}
use pg_migrate.Text.{Bytes}
use pg_migrate.Text.Space.{trim_space}
use pg_migrate.Text.Unicode.{Unicode}
use pg_migrate.Script.{
  after_move, ScanState, normal, in_single_quote, in_double_quote, in_dollar_quote,
  in_block_comment, Scanner, Move, go, line_comment, boundary, is_empty_statement, append_statement,
  open_dollar_quote, match_dollar_tag, step_normal, step_single_quote, step_double_quote,
  step_dollar_quote, step_block_comment, step_in, scan_line,
}

abbrev pub joined : List Bytes → Bytes
joined [] = []
joined (p ∷ ps) = p ++ joined ps

-- The pieces without the white space around them, less those that say nothing.
abbrev pub spoken : List Bytes → List Bytes
spoken [] = []
spoken (p ∷ ps) = if is_empty_statement (trim_space p) then spoken ps else trim_space p ∷ spoken ps

joined-append : (ps : List Bytes) (b : Bytes) → joined (ps ++ b ∷ []) ≡ joined ps ++ b
joined-append [] b = append-nil b
joined-append (p ∷ ps) b = rw (joined-append ps b, append_assoc)

spoken-append :
    (ps : List Bytes) (b : Bytes)
    → spoken (ps ++ b ∷ [])
      ≡ (if is_empty_statement (trim_space b) then spoken ps else spoken ps ++ trim_space b ∷ [])
spoken-append [] b = refl
spoken-append (p ∷ ps) b = ground (arith, spoken-append ps b)

-- The scanner is outside of a block, and the text that it has read is some pieces, of which the
-- statements come, and what is in the buffer.
pub record IsCut (text : Bytes) (s : Scanner) : Type 0 where
  pub pieces : List Bytes
  pub whole : joined pieces ++ s.buf ≡ text
  pub said : s.statements ≡ spoken pieces
  pub outside : s.in_block ≡ false

pub IsCut-text : {text other : Bytes} {s : Scanner} → text ≡ other → IsCut text s → IsCut other s
IsCut-text {s} same h = subst (λ t. IsCut t s) same h

pub IsCut-append_statement :
    (text : Bytes) (s : Scanner) → IsCut text s → IsCut text (append_statement s)
unfolding append_statement
IsCut-append_statement text s h = record {
  pieces = h.pieces ++ s.buf ∷ [];
  whole = append-nil _ ∙ joined-append h.pieces s.buf ∙ h.whole;
  said =
      ap (λ ss. if is_empty_statement (trim_space s.buf) then ss else ss ++ trim_space s.buf ∷ [])
        h.said
      ∙ sym (spoken-append h.pieces s.buf);
  outside = h.outside;
}

-- A scanner with another buffer, and nothing else that counts here.
pub IsCut-buf :
    {text : Bytes} {s : Scanner} (more : Bytes) (t : Scanner)
    → IsCut text s
    → t.statements ≡ s.statements
    → t.in_block ≡ s.in_block
    → t.buf ≡ s.buf ++ more
    → IsCut (text ++ more) t
IsCut-buf {s} more t h said outside buf = record {
  pieces = h.pieces;
  whole =
      ap (λ b. joined h.pieces ++ b) buf
      ∙ sym (append_assoc (joined h.pieces) s.buf more)
      ∙ ap (λ b. b ++ more) h.whole;
  said = said ∙ h.said;
  outside = outside ∙ h.outside;
}

-- A move at a byte adds no statement, opens or closes no block, and writes nothing.
abbrev pub Keeps : Scanner → Move → Type 0
Keeps s (go k t) = (t.statements ≡ s.statements) × (t.in_block ≡ s.in_block) × (t.buf ≡ s.buf)
Keeps s line_comment = Unit
Keeps s boundary = Unit

Keeps-open_dollar_quote : (s : Scanner) (tag : Option Bytes) → Keeps s (open_dollar_quote s tag)
Keeps-open_dollar_quote s none = (refl, refl, refl)
Keeps-open_dollar_quote s (some t) = (refl, refl, refl)

pub Keeps-step_in :
    (st : ScanState) (u : Unicode) (read : Bytes) (c : ℕ) (rest : Bytes) (s : Scanner)
    → Keeps s (step_in st u read c rest s)
unfolding step_in step_normal step_single_quote step_double_quote step_dollar_quote
    step_block_comment
Keeps-step_in normal u read c rest s =
    ground (arith, Keeps-open_dollar_quote s (match_dollar_tag u rest))
Keeps-step_in in_single_quote u read c rest s = ground arith
Keeps-step_in in_double_quote u read c rest s = ground arith
Keeps-step_in in_dollar_quote u read c rest s = ground arith
Keeps-step_in in_block_comment u read c rest s = ground arith

after_byte :
    (text seg : Bytes) (c : ℕ) (rest : Bytes)
    → text ++ (seg ++ c ∷ []) ++ rest ≡ text ++ seg ++ c ∷ rest
after_byte text seg c rest =
    ap (λ b. b ++ rest) (sym (append_assoc text seg (c ∷ [])))
    ∙ append_assoc (text ++ seg) (c ∷ []) rest

pub IsCut-scan_line :
    (u : Unicode) (skip : ℕ) (read seg rest text : Bytes) (s : Scanner)
    → IsCut text s
    → IsCut (text ++ seg ++ rest) (scan_line u skip read seg rest s)
unfolding scan_line
IsCut-scan_line u skip read seg [] text s h =
    IsCut-text (sym (append-nil (text ++ seg)))
      (IsCut-buf seg (record s { buf = s.buf ++ seg }) h refl refl refl)
IsCut-scan_line u (suc k) read seg (c ∷ rest) text s h =
    IsCut-text (after_byte text seg c rest)
      (IsCut-scan_line u k (c ∷ read) (seg ++ c ∷ []) rest text s h)
IsCut-scan_line u zero read seg (c ∷ rest) text s h =
    look (step_in s.state u read c rest s) (Keeps-step_in s.state u read c rest s)
      (λ k t i. IsCut-scan_line u k (c ∷ read) (seg ++ c ∷ []) rest text t i)
      (λ t i. IsCut-scan_line u 0 (c ∷ read) [] rest (text ++ seg ++ c ∷ []) t i)
  where
    written : (more : Bytes) → IsCut (text ++ seg ++ more) (record s { buf = s.buf ++ seg ++ more })
    written more = IsCut-text (sym (append_assoc text seg more)) (
        IsCut-buf (seg ++ more) (record s { buf = s.buf ++ seg ++ more }) h refl refl
          (append_assoc s.buf seg more))

    look :
        (m : Move)
        → Keeps s m
        → ((k : ℕ) (t : Scanner)
            → IsCut text t
            → IsCut
                (text ++ (seg ++ c ∷ []) ++ rest)
                (scan_line u k (c ∷ read) (seg ++ c ∷ []) rest t))
        → ((t : Scanner)
            → IsCut (text ++ seg ++ c ∷ []) t
            → IsCut ((text ++ seg ++ c ∷ []) ++ [] ++ rest) (scan_line u 0 (c ∷ read) [] rest t))
        → IsCut
            (text ++ seg ++ c ∷ rest)
            (after_move (λ skip seg s'. scan_line u skip (c ∷ read) seg rest s') seg c rest s m)
    look (go k t) same on next = IsCut-text (after_byte text seg c rest) (
        on k t (
          IsCut-text (append-nil text)
            (IsCut-buf [] t h same.0 same.1 (same.2 ∙ sym (append-nil s.buf)))))
    look line_comment same on next = written (c ∷ rest)
    look boundary same on next =
        IsCut-text
          (ap (λ b. b ++ rest) (append-nil (text ++ seg ++ c ∷ []))
            ∙ append_assoc (text ++ seg) (c ∷ []) rest)
          (next _ (IsCut-append_statement _ _ (written (c ∷ []))))
