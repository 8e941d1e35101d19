-- ===== src/Script.antt =====
-- `splitSQLStatements` of internal/migrator/custom_executor.go and what it calls.
--
-- The index `i` of the source is the place between the bytes of the line that are read and the
-- rest; `segStart` is where the segment at hand begins. Where the source adds more than one to
-- `i`, the scan skips the bytes in between.
pub mod Nonempty
pub mod Blocks
pub mod Silent
pub mod Cut
pub mod Pieces
use pg_migrate.Prelude.{
  ℕ, zero, suc, ◌+◌, ◌-◌, Bool, true, false, not, ◌&&◌, ◌||◌, Option, none, some, List, [], ◌∷◌,
  ◌++◌, reverse, leb, ◌==◌, if◌then◌else◌, length, is_nil,
}
use pg_migrate.Result.{Result, ok, err}
use pg_migrate.Text.{Bytes, codes, equal}
use pg_migrate.Text.Space.{trim_space, trim}
use pg_migrate.Text.Lines.{newline, lines, has_prefix}
use pg_migrate.Text.Unicode.{Unicode, decode_rune}
use pg_migrate.Directives.{ScriptError, unclosed_block, statement_begin_line, statement_end_line}

pub data ScanState : Type 0 where
  normal in_single_quote in_double_quote in_dollar_quote in_block_comment : ScanState

-- The variables of the function.
pub record Scanner : Type 0 where
  pub statements : List Bytes
  pub buf : Bytes
  pub state : ScanState
  pub dollar_tag : Bytes
  pub depth : ℕ
  pub in_block : Bool
  pub escape_string : Bool

-- `isIdentifierByte`
unfoldable pub is_identifier_byte : ℕ → Bool
is_identifier_byte c =
    c == b'_'
    || leb b'a' c && leb c b'z'
    || leb b'A' c && leb c b'Z'
    || leb b'0' c && leb c b'9'
    || leb 0x80 c

abbrev is_e : ℕ → Bool
is_e c = not (not (c == b'E') && not (c == b'e'))

-- `isEscapeStringPrefix`, on the bytes read before the quote, the last one first
unfoldable pub is_escape_string_prefix : Bytes → Bool
unfolding is_identifier_byte
is_escape_string_prefix [] = false
is_escape_string_prefix (p ∷ []) = is_e p
is_escape_string_prefix (p ∷ q ∷ read) = if is_e p then not (is_identifier_byte q) else false

-- `isDollarTagChar`
unfoldable pub is_dollar_tag_char : Unicode → ℕ → Bool → Bool
is_dollar_tag_char u r first =
    if r == b'_' || u.is_letter r then true else not first && u.is_digit r

-- the loop of `matchDollarTag`; `tag` is `line[i:j]`
unfoldable pub match_tag_from : Unicode → ℕ → Bool → Bytes → Bytes → Option Bytes
match_tag_from u skip first tag [] = none
match_tag_from u (suc k) first tag (c ∷ rest) = match_tag_from u k first (tag ++ c ∷ []) rest
match_tag_from u zero first tag (c ∷ rest) =
    let (r, size) = decode_rune (c ∷ rest) in
    let further = match_tag_from u (size - 1) false (tag ++ c ∷ []) rest in
    if r == b'$'
    then some (tag ++ c ∷ [])
    else if not (is_dollar_tag_char u r first)
    then none
    else further

-- `matchDollarTag`, on what follows the `$`
unfoldable pub match_dollar_tag : Unicode → Bytes → Option Bytes
unfolding match_tag_from is_dollar_tag_char
match_dollar_tag u rest = match_tag_from u 0 true (b'$' ∷ []) rest

-- `bufio.MaxScanTokenSize`: a line that fills the buffer ends the scan
abbrev pub max_scan_token_size : ℕ
max_scan_token_size = 65536

-- `bufio.ScanLines` takes a carriage return off the end of a line.
abbrev drop_cr_back : Bytes → Bytes
drop_cr_back [] = []
drop_cr_back (c ∷ s) = if c == b'\r' then s else c ∷ s

abbrev drop_cr : Bytes → Bytes
drop_cr line = reverse (drop_cr_back (reverse line))

-- the loop of `isOnlyComments`, on the lines of the text
unfoldable pub only_comments : List Bytes → Bool
only_comments [] = true
only_comments (l ∷ ls) =
    if leb max_scan_token_size (length l)
    then true
    else if is_nil (trim_space (drop_cr l))
    then only_comments ls
    else if not (has_prefix (trim_space (drop_cr l)) (codes "--"))
    then false
    else only_comments ls

-- `isOnlyComments`
unfoldable pub is_only_comments : Bytes → Bool
unfolding only_comments
is_only_comments s = only_comments (lines s)

-- `isEmptyStatement`
unfoldable pub is_empty_statement : Bytes → Bool
is_empty_statement s = if is_nil (trim (codes "; \t\r\n") s) then true else is_only_comments s

-- `appendStatement`
unfoldable pub append_statement : Scanner → Scanner
append_statement s =
    let text = trim_space s.buf in
    record s {
      statements = if is_empty_statement text then s.statements else s.statements ++ text ∷ [];
      buf = [];
    }

-- What the scanner does at a byte: it goes on in a state after skipping so many bytes more, the
-- rest of the line is a comment, or a statement ends here.
pub data Move : Type 0 where
  go : ℕ → Scanner → Move
  line_comment boundary : Move

abbrev next_is : ℕ → Bytes → Bool
next_is b [] = false
next_is b (c ∷ rest) = c == b

abbrev open_dollar_quote : Scanner → Option Bytes → Move
open_dollar_quote s none = go 0 s
open_dollar_quote s (some tag) =
    go (length tag - 1) (record s { state = in_dollar_quote; dollar_tag = tag })

unfoldable pub step_normal : Unicode → Bytes → ℕ → Bytes → Scanner → Move
unfolding is_escape_string_prefix
step_normal u read c rest s =
    if c == b'\''
    then go 0 (record s { state = in_single_quote; escape_string = is_escape_string_prefix read })
    else if c == b'"'
    then go 0 (record s { state = in_double_quote })
    else if c == b'$'
    then open_dollar_quote s (match_dollar_tag u rest)
    else if c == b'-' && next_is b'-' rest
    then line_comment
    else if c == b'/' && next_is b'*' rest
    then go 1 (record s { state = in_block_comment; depth = 1 })
    else if c == b';'
    then boundary
    else go 0 s

unfoldable pub step_single_quote : ℕ → Bytes → Scanner → Move
step_single_quote c rest s =
    if s.escape_string && c == b'\\'
    then go 1 s
    else if c == b'\''
    then (if next_is b'\'' rest
        then go 1 s
        else go 0 (record s { state = normal; escape_string = false }))
    else go 0 s

unfoldable pub step_double_quote : ℕ → Bytes → Scanner → Move
step_double_quote c rest s =
    if c == b'"'
    then (if next_is b'"' rest then go 1 s else go 0 (record s { state = normal }))
    else go 0 s

unfoldable pub step_dollar_quote : ℕ → Bytes → Scanner → Move
step_dollar_quote c rest s =
    if c == b'$' && has_prefix (c ∷ rest) s.dollar_tag
    then go (length s.dollar_tag - 1) (record s { state = normal; dollar_tag = [] })
    else go 0 s

unfoldable pub step_block_comment : ℕ → Bytes → Scanner → Move
step_block_comment c rest s =
    if c == b'*' && next_is b'/' rest
    then go 1 (
        if s.depth - 1 == 0
        then record s { depth = s.depth - 1; state = normal }
        else record s { depth = s.depth - 1 })
    else if c == b'/' && next_is b'*' rest
    then go 1 (record s { depth = s.depth + 1 })
    else go 0 s

unfoldable pub step_in : ScanState → Unicode → Bytes → ℕ → Bytes → Scanner → Move
unfolding step_normal step_single_quote step_double_quote step_dollar_quote step_block_comment
step_in normal u read c rest s = step_normal u read c rest s
step_in in_single_quote u read c rest s = step_single_quote c rest s
step_in in_double_quote u read c rest s = step_double_quote c rest s
step_in in_dollar_quote u read c rest s = step_dollar_quote c rest s
step_in in_block_comment u read c rest s = step_block_comment c rest s

-- The cases of the loop `scanLine`; `more` is the loop on what follows the byte.
abbrev pub after_move :
    (ℕ → Bytes → Scanner → Scanner) → Bytes → ℕ → Bytes → Scanner → Move → Scanner
after_move more seg c rest s (go skip s') = more skip (seg ++ c ∷ []) s'
after_move more seg c rest s line_comment = record s { buf = s.buf ++ seg ++ c ∷ rest }
after_move more seg c rest s boundary =
    more 0 [] (append_statement (record s { buf = s.buf ++ seg ++ c ∷ [] }))

-- the loop `scanLine`, with the write of the last segment behind it; `read` is `line[:i]`, the last
-- byte first, and `seg` is `line[segStart:i]`
unfoldable pub scan_line : Unicode → ℕ → Bytes → Bytes → Bytes → Scanner → Scanner
scan_line u skip read seg [] s = record s { buf = s.buf ++ seg }
scan_line u (suc k) read seg (c ∷ rest) s = scan_line u k (c ∷ read) (seg ++ c ∷ []) rest s
scan_line u zero read seg (c ∷ rest) s =
    after_move (λ skip seg s'. scan_line u skip (c ∷ read) seg rest s') seg c rest s
      (step_in s.state u read c rest s)

abbrev pub is_normal : ScanState → Bool
is_normal normal = true
is_normal _ = false

-- The body of the loop over the lines; the flag is `isLastLine`.
unfoldable pub process_line : Unicode → Bool → Bytes → Scanner → Scanner
unfolding equal
process_line u is_last_line line s =
    if not s.in_block && is_normal s.state && equal (trim_space line) statement_begin_line
    then record (append_statement s) { in_block = true }
    else if s.in_block && is_normal s.state && equal (trim_space line) statement_end_line
    then record (append_statement s) { in_block = false }
    else if s.in_block
    then record s { buf = s.buf ++ line ++ newline ∷ [] }
    else let scanned = scan_line u 0 [] [] line s in
      if is_last_line then scanned else record scanned { buf = scanned.buf ++ newline ∷ [] }

unfoldable pub process_lines : Unicode → List Bytes → Scanner → Scanner
process_lines u [] s = s
process_lines u (line ∷ rest) s = process_lines u rest (process_line u (is_nil rest) line s)

abbrev pub start : Scanner
start = record {
  statements = [];
  buf = [];
  state = normal;
  dollar_tag = [];
  depth = 0;
  in_block = false;
  escape_string = false;
}

abbrev finish : Scanner → Result ScriptError (List Bytes)
finish s = if s.in_block then err unclosed_block else ok (append_statement s).statements

-- `splitSQLStatements`
unfoldable pub split_sql_statements : Unicode → Bytes → Result ScriptError (List Bytes)
unfolding process_lines
split_sql_statements u script = finish (process_lines u (lines script) start)
