-- ===== src/Directives/Parsed.antt =====
-- What a header that parses says, and that the header the program writes parses.
use pg_migrate.Prelude.{
  ℕ, ◌+◌, ◌≡◌, refl, sym, ◌∙◌, ap, inl, inr, ◌⊎◌, Bool, true, false, not, ◌&&◌, Option, none, some,
  List, [], ◌∷◌, ◌++◌, All, arith, if◌then◌else◌, Bool-cases,
}
use mathlib.Core.Path.{subst}
use pg_migrate.Result.{ok, err, bind-eq-ok, err≢ok}
use pg_migrate.Text.{Bytes, equal_iff, contains}
use pg_migrate.Text.Space.{trim_space, fields}
use pg_migrate.Text.Lines.{newline, lines, cut_head, cut_rest}
use pg_migrate.Directives.{
  ScriptError, directive_names, is_directive_line, accept_names, known_directives,
  check_no_late_directives, with_body, header_switch, parse_directive_header, directive_header_for,
  looks_like_directive, is_statement_marker_line, notransaction, irreversible,
}

-- No line of a text is a directive.
abbrev pub IsCalm : Bytes → Type 0
IsCalm body = All (λ line. is_directive_line line ≡ false) (lines body)

-- The directives and the body that a script is parsed into.
pub record IsParsed (script : Bytes) (directives : List Bytes) (body : Bytes) : Type 0 where
  pub calm : IsCalm body
  pub known : All (λ name. contains known_directives name ≡ true) directives
  pub origin :
      ((directives ≡ []) × (body ≡ script))
      ⊎ ((directive_names (cut_head script) ≡ some directives) × (body ≡ cut_rest script))

err≢ok_if :
    {A B : Type 0} (b : Bool) (e f : ScriptError) {a : A} → (if b then err e else err f) ≡ ok a → B
err≢ok_if true e f h = err≢ok h
err≢ok_if false e f h = err≢ok h

check_no_late_directives-ok :
    (number : ℕ) (ls : List Bytes)
    → check_no_late_directives number ls ≡ ok tt
    → All (λ line. is_directive_line line ≡ false) ls
unfolding check_no_late_directives
check_no_late_directives-ok number [] h = tt
check_no_late_directives-ok number (l ∷ ls) h = elim (Bool-cases (is_directive_line l)) [
  | inl e ↦ err≢ok (rw e at h)
  | inr e ↦ (e, check_no_late_directives-ok (number + 1) ls (rw e at h))
]

check_no_late_directives-calm :
    (number : ℕ) (ls : List Bytes)
    → All (λ line. is_directive_line line ≡ false) ls
    → check_no_late_directives number ls ≡ ok tt
unfolding check_no_late_directives
check_no_late_directives-calm number [] h = refl
check_no_late_directives-calm number (l ∷ ls) h =
    rw h.0 (check_no_late_directives-calm (number + 1) ls h.1)

accept_names-ok :
    (names : List Bytes) {directives : List Bytes}
    → accept_names names ≡ ok directives
    → (directives ≡ names) × All (λ name. contains known_directives name ≡ true) names
unfolding accept_names
accept_names-ok [] h = (cc, tt)
accept_names-ok (name ∷ names) {directives} h = elim (Bool-cases (contains known_directives name)) [
  | inl e ↦
      let (rest, accepted, same) = bind-eq-ok (accept_names names) _ (rw e at h) in
      let more = accept_names-ok names accepted in (cc, (e, more.1))
  | inr e ↦ err≢ok_if _ _ _ (rw e at h)
]

with_body-ok :
    (number : ℕ) (given : List Bytes) (text : Bytes) {directives : List Bytes} {body : Bytes}
    → with_body number given text ≡ ok (directives, body)
    → (directives ≡ given) × (body ≡ text) × IsCalm text
with_body-ok number given text h =
    let (x, checked, same) = bind-eq-ok (check_no_late_directives number (lines text)) _ h in
    (cc, cc, check_no_late_directives-ok number (lines text) checked)

module _ (script : Bytes) {directives : List Bytes} {body : Bytes} where
  header_switch-ok :
      (names : Option (List Bytes))
      → directive_names (cut_head script) ≡ names
      → header_switch script names ≡ ok (directives, body)
      → IsParsed script directives body
  header_switch-ok (some []) e h = err≢ok h
  header_switch-ok (some (name ∷ names)) e h =
      let (found, accepted, rest) = bind-eq-ok (accept_names (name ∷ names)) _ h in
      let (same, known) = accept_names-ok (name ∷ names) accepted in
      let (dirs, text, calm) = with_body-ok 2 found (cut_rest script) rest in
      record {
        calm = rw (sym text) at calm;
        known =
            subst (λ ns. All (λ n. contains known_directives n ≡ true) ns) (sym (dirs ∙ same))
              known;
        origin = inr (e ∙ ap some (sym (dirs ∙ same)), text);
      }
  header_switch-ok none e h =
      elim (Bool-cases (
        looks_like_directive (cut_head script)
        && not (is_statement_marker_line (cut_head script)))) [
          | inl b ↦ err≢ok (rw b at h)
          | inr b ↦
              let (dirs, text, calm) = with_body-ok 1 [] script (rw b at h) in
              record { calm = rw (sym text) at calm; known = rw dirs tt; origin = inl (dirs, text) }
        ]

  -- A script that parses has a body without a directive line and known directives only. Either it has
  -- no directive and its body is the whole script, or they are those of its first line, and
  -- the body is what follows that line.
  pub parse_directive_header_ends :
      parse_directive_header script ≡ ok (directives, body) → IsParsed script directives body
  unfolding parse_directive_header
  parse_directive_header_ends h = header_switch-ok (directive_names (cut_head script)) refl h

known_cases :
    (name : Bytes)
    → contains known_directives name ≡ true
    → (name ≡ notransaction) ⊎ (name ≡ irreversible)
unfolding contains
known_cases name h = ground (arith, equal_iff notransaction name, equal_iff irreversible name)

notransaction_header :
    (body : Bytes)
    → IsCalm body
    → parse_directive_header (directive_header_for notransaction ++ newline ∷ body)
      ≡ ok (notransaction ∷ [], body)
unfolding parse_directive_header directive_header_for directive_names fields trim_space cut_head
    cut_rest accept_names
notransaction_header body calm = rw (check_no_late_directives-calm 2 (lines body) calm) refl

irreversible_header :
    (body : Bytes)
    → IsCalm body
    → parse_directive_header (directive_header_for irreversible ++ newline ∷ body)
      ≡ ok (irreversible ∷ [], body)
unfolding parse_directive_header directive_header_for directive_names fields trim_space cut_head
    cut_rest accept_names
irreversible_header body calm = rw (check_no_late_directives-calm 2 (lines body) calm) refl

-- A header that `DirectiveHeaderFor` writes for a known directive, before a body without a directive
-- line, is parsed into this directive and this body.
pub parse_directive_header-directive_header_for :
    (name body : Bytes)
    → contains known_directives name ≡ true
    → IsCalm body
    → parse_directive_header (directive_header_for name ++ newline ∷ body) ≡ ok (name ∷ [], body)
parse_directive_header-directive_header_for name body known calm = elim (known_cases name known) [
  | inl e ↦ rw e (notransaction_header body calm)
  | inr e ↦ rw e (irreversible_header body calm)
]
