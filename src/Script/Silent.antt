-- ===== src/Script/Silent.antt =====
-- Texts without a statement, described apart from `isEmptyStatement` of custom_executor.go.
use pg_migrate.Prelude.{
  ◌≡◌, refl, inl, inr, ◌⊎◌, Bool, true, false, not, ◌||◌, List, [], ◌∷◌, ◌++◌, All, All-of-any, any,
  arith, is_nil, is_nil_lem, leb, length, Bool-cases, reverse,
}
use pg_migrate.Text.{Bytes, codes}
use pg_migrate.Text.Space.{trim_space, trim, trim_left, has_byte}
use pg_migrate.Text.Lines.{lines, has_prefix}
use pg_migrate.Text.Trimmed.{trim-nil}
use pg_migrate.Script.{
  Scanner, max_scan_token_size, drop_cr, only_comments, is_only_comments, is_empty_statement,
  append_statement,
}

-- A semicolon, a blank, a tab, or the end of a line.
abbrev pub separators : Bytes
separators = codes "; \t\r\n"

-- A line that is blank or a comment.
abbrev pub is_remark : Bytes → Bool
is_remark l = is_nil (trim_space (drop_cr l)) || has_prefix (trim_space (drop_cr l)) (codes "--")

abbrev pub is_long : Bytes → Bool
is_long l = leb max_scan_token_size (length l)

-- There are separators only, or remarks only.
abbrev pub SaysNothing : Bytes → Type 0
SaysNothing text =
    All (λ c. has_byte separators c ≡ true) text ⊎ All (λ l. is_remark l ≡ true) (lines text)

-- Some line fills the buffer of a bufio.Scanner.
abbrev pub HasLongLine : Bytes → Type 0
HasLongLine text = any is_long (lines text) ≡ true

-- There is something besides separators, and a line that is no remark.
abbrev pub SaysSomething : Bytes → Type 0
SaysSomething text =
    (any (λ c. not (has_byte separators c)) text ≡ true)
    × (any (λ l. not (is_remark l)) (lines text) ≡ true)

only_comments-true :
    (ls : List Bytes)
    → only_comments ls ≡ true
    → All (λ l. is_remark l ≡ true) ls ⊎ (any is_long ls ≡ true)
unfolding only_comments
only_comments-true [] h = inl tt
only_comments-true (l ∷ ls) h = elim (Bool-cases (is_long l)) [
  | inl e ↦ inr (ground (arith, e))
  | inr e ↦ later (only_comments-true ls (rest_of h e)) (remark_of h e)
]
  where
    rest_of : only_comments (l ∷ ls) ≡ true → is_long l ≡ false → only_comments ls ≡ true
    rest_of k e = ground (arith, k, e)

    remark_of : only_comments (l ∷ ls) ≡ true → is_long l ≡ false → is_remark l ≡ true
    remark_of k e = ground (arith, k, e)

    later :
        All (λ l. is_remark l ≡ true) ls ⊎ (any is_long ls ≡ true)
        → is_remark l ≡ true
        → All (λ l. is_remark l ≡ true) (l ∷ ls) ⊎ (any is_long (l ∷ ls) ≡ true)
    later (inl all) r = inl (r, all)
    later (inr long) r = inr (ground (arith, long))

only_comments-false :
    (ls : List Bytes) → only_comments ls ≡ false → any (λ l. not (is_remark l)) ls ≡ true
unfolding only_comments
only_comments-false [] h = cc
only_comments-false (l ∷ ls) h = ground (arith, only_comments-false ls)

trim_left-All :
    (cutset s : Bytes) → All (λ c. not (has_byte cutset c) ≡ false) s → trim_left cutset s ≡ []
unfolding trim_left
trim_left-All cutset [] h = refl
trim_left-All cutset (c ∷ s) h = ground (arith, h.0, trim_left-All cutset s h.1)

trim-some :
    (cutset s : Bytes)
    → is_nil (trim cutset s) ≡ false
    → any (λ c. not (has_byte cutset c)) s ≡ true
unfolding trim
trim-some cutset s h = elim (Bool-cases (any (λ c. not (has_byte cutset c)) s)) [
  | inl e ↦ e
  | inr e ↦ contradiction (trim_left-All cutset s (All-of-any _ s e))
]
  where
    nothing : (x : Bytes) → x ≡ [] → is_nil (reverse (trim_left cutset (reverse x))) ≡ true
    nothing [] e = unfold trim_left in refl
    nothing (c ∷ x) e = cc

    contradiction : {A : Type 0} → trim_left cutset s ≡ [] → A
    contradiction e = cc (nothing _ e)

pub empty-SaysNothing :
    (text : Bytes) → is_empty_statement text ≡ true → SaysNothing text ⊎ HasLongLine text
unfolding is_empty_statement is_only_comments
empty-SaysNothing text h = elim (Bool-cases (is_nil (trim separators text))) [
  | inl e ↦ inl (inl (trim-nil separators text (is_nil_lem (trim separators text) e)))
  | inr e ↦ by_lines (only_comments-true (lines text) (rw e at h))
]
  where
    by_lines :
        All (λ l. is_remark l ≡ true) (lines text) ⊎ HasLongLine text
        → SaysNothing text ⊎ HasLongLine text
    by_lines (inl remarks) = inl (inr remarks)
    by_lines (inr long) = inr long

pub nonempty-SaysSomething : (text : Bytes) → is_empty_statement text ≡ false → SaysSomething text
unfolding is_empty_statement is_only_comments
nonempty-SaysSomething text h = elim (Bool-cases (is_nil (trim separators text))) [
  | inl e ↦ never (rw e at h)
  | inr e ↦ (trim-some separators text e, only_comments-false (lines text) (rw e at h))
]
  where
    never : {A : Type 0} → true ≡ false → A
    never e = cc

-- A text becomes a statement if it says something; else, or if it has a long line, it may be dropped.
abbrev pub Added : List Bytes → Bytes → List Bytes → Type 0
Added before text after =
    ((after ≡ before ++ text ∷ []) × SaysSomething text)
    ⊎ ((after ≡ before) × (SaysNothing text ⊎ HasLongLine text))

pub Added-append_statement :
    (s : Scanner) → Added s.statements (trim_space s.buf) (append_statement s).statements
unfolding append_statement
Added-append_statement s = elim (Bool-cases (is_empty_statement (trim_space s.buf))) [
  | inl e ↦ inr (rw e refl, empty-SaysNothing (trim_space s.buf) e)
  | inr e ↦ inl (rw e refl, nonempty-SaysSomething (trim_space s.buf) e)
]

-- The statements are the pieces that say something, in their order and without the white space around
-- them; of the others, and of those with a long line, any may be left out.
abbrev pub Chosen : (pieces stmts : List Bytes) → Type 0
Chosen [] stmts = stmts ≡ []
Chosen (p ∷ ps) stmts =
    ((rest : List Bytes) × (stmts ≡ trim_space p ∷ rest)
      × SaysSomething (trim_space p)
      × Chosen ps rest)
    ⊎ ((SaysNothing (trim_space p) ⊎ HasLongLine (trim_space p)) × Chosen ps stmts)
