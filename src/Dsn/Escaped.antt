-- ===== src/Dsn/Escaped.antt =====
-- `quoteDSNValue` of internal/db/postgres.go, and a reader at the value it writes.
use pg_migrate.Prelude.{
  ℕ, zero, suc, ◌-◌, ◌≡◌, refl, sym, ap, ◌∙◌, Bool, true, false, ◌&&◌, ◌||◌, [], ◌∷◌, ◌++◌,
  if◌then◌else◌, ltb, ◌==◌, arith, Bool-cases, inl, inr, append_assoc, append-nil,
}
use pg_migrate.Text.{Bytes}
use pg_migrate.Text.Unicode.{decode_rune}
use pg_migrate.Dsn.{is_escaped, escape_from}
use pg_migrate.Dsn.Reading.{read_settings, ended, is_utf8, between, quoted}

step_quoted :
    (c : ℕ) (key acc r : Bytes)
    → is_escaped c ≡ false
    → read_settings (quoted false) key acc (c ∷ r)
      ≡ read_settings (quoted false) key (acc ++ c ∷ []) r
unfolding read_settings
step_quoted c key acc r h = rw (not_quote c h, not_slash c h) refl
  where
    not_quote : (c : ℕ) → is_escaped c ≡ false → (c == b'\'') ≡ false
    not_quote c e = ground arith

    not_slash : (c : ℕ) → is_escaped c ≡ false → (c == b'\\') ≡ false
    not_slash c e = ground arith

decode_ascii : (c : ℕ) (s : Bytes) → ltb c 0x80 ≡ true → (decode_rune (c ∷ s)).1 ≡ 1
unfolding decode_rune
decode_ascii c [] h = rw h refl
decode_ascii c (d ∷ []) h = rw h refl
decode_ascii c (d ∷ e ∷ []) h = rw h refl
decode_ascii c (d ∷ e ∷ f ∷ s) h = rw h refl

escape_escaped :
    (c : ℕ) (s : Bytes)
    → is_escaped c ≡ true
    → escape_from zero (c ∷ s) ≡ b'\\' ∷ c ∷ escape_from zero s
unfolding escape_from
escape_escaped c s h = rw h refl

escape_ascii :
    (c : ℕ) (s : Bytes)
    → is_escaped c ≡ false
    → ltb c 0x80 ≡ true
    → escape_from zero (c ∷ s) ≡ c ∷ escape_from zero s
unfolding escape_from
escape_ascii c s h k = rw (h, k, decode_ascii c s k) refl

escape_wide :
    (c : ℕ) (s : Bytes)
    → is_escaped c ≡ false
    → ltb 1 (decode_rune (c ∷ s)).1 ≡ true
    → escape_from zero (c ∷ s) ≡ c ∷ escape_from ((decode_rune (c ∷ s)).1 - 1) s
unfolding escape_from
escape_wide c s h k = rw (h, k) (either _ _ (ltb c 0x80))
  where
    either : (a b : Bytes) (t : Bool) → (if t || true then a else b) ≡ a
    either a b true = refl
    either a b false = refl

utf8_ascii :
    (c : ℕ) (s : Bytes) → ltb c 0x80 ≡ true → is_utf8 zero (c ∷ s) ≡ true → is_utf8 zero s ≡ true
unfolding is_utf8
utf8_ascii c s h k = rw h at k

utf8_wide :
    (c : ℕ) (s : Bytes)
    → ltb c 0x80 ≡ false
    → is_utf8 zero (c ∷ s) ≡ true
    → (ltb 1 (decode_rune (c ∷ s)).1 ≡ true) × (is_utf8 ((decode_rune (c ∷ s)).1 - 1) s ≡ true)
unfolding is_utf8
utf8_wide c s h k = both _ _ (rw h at k)
  where
    both : (a b : Bool) → (a && b) ≡ true → (a ≡ true) × (b ≡ true)
    both true true e = (refl, refl)
    both true false e = cc
    both false b e = cc

utf8_skip :
    (k c : ℕ) (s : Bytes)
    → is_utf8 (suc k) (c ∷ s) ≡ true
    → (is_escaped c ≡ false) × (is_utf8 k s ≡ true)
unfolding is_utf8
utf8_skip k c s h = (ground arith, ground arith)

step_escaped :
    (c : ℕ) (key acc r : Bytes)
    → read_settings (quoted false) key acc (b'\\' ∷ c ∷ r)
      ≡ read_settings (quoted false) key (acc ++ c ∷ []) r
unfolding read_settings
step_escaped c key acc r = refl

end_quoted :
    (key acc r : Bytes)
    → read_settings (quoted false) key acc (b'\'' ∷ r)
      ≡ ended key acc (read_settings between [] [] r)
unfolding read_settings
end_quoted key acc r = refl

escaped-ascii : (c : ℕ) → is_escaped c ≡ true → ltb c 0x80 ≡ true
escaped-ascii c h = ground arith

-- The escaped form of a text, up to the closing quote, reads as the text.
pub read_escaped :
    (k : ℕ) (key acc s r : Bytes)
    → is_utf8 k s ≡ true
    → read_settings (quoted false) key acc (escape_from k s ++ b'\'' ∷ r)
      ≡ ended key (acc ++ s) (read_settings between [] [] r)
unfolding escape_from
read_escaped zero key acc [] r h =
    end_quoted key acc r
    ∙ ap (λ a. ended key a (read_settings between [] [] r)) (sym (append-nil acc))
read_escaped (suc k) key acc [] r h = not_empty k h
  where
    not_empty : {A : Type 0} (k : ℕ) → is_utf8 (suc k) [] ≡ true → A
    not_empty k e = unfold is_utf8 in cc
read_escaped (suc k) key acc (c ∷ s) r h =
    let (other, rest) = utf8_skip k c s h in
    step_quoted c key acc (escape_from k s ++ b'\'' ∷ r) other
    ∙ read_escaped k key (acc ++ c ∷ []) s r rest
    ∙ ap (λ a. ended key a (read_settings between [] [] r)) (append_assoc acc (c ∷ []) s)
read_escaped zero key acc (c ∷ s) r h =
    let assoc =
      ap (λ a. ended key a (read_settings between [] [] r)) (append_assoc acc (c ∷ []) s) in
    let width = (decode_rune (c ∷ s)).1 in
    elim (Bool-cases (is_escaped c)) [
      | inl e ↦
          ap (λ t. read_settings (quoted false) key acc (t ++ b'\'' ∷ r)) (escape_escaped c s e)
          ∙ step_escaped c key acc (escape_from zero s ++ b'\'' ∷ r)
          ∙ read_escaped zero key (acc ++ c ∷ []) s r (utf8_ascii c s (escaped-ascii c e) h)
          ∙ assoc
      | inr e ↦ elim (Bool-cases (ltb c 0x80)) [
        | inl low ↦
            ap (λ t. read_settings (quoted false) key acc (t ++ b'\'' ∷ r)) (escape_ascii c s e low)
            ∙ step_quoted c key acc (escape_from zero s ++ b'\'' ∷ r) e
            ∙ read_escaped zero key (acc ++ c ∷ []) s r (utf8_ascii c s low h)
            ∙ assoc
        | inr high ↦
            let (wide, rest) = utf8_wide c s high h in
            ap (λ t. read_settings (quoted false) key acc (t ++ b'\'' ∷ r)) (escape_wide c s e wide)
            ∙ step_quoted c key acc (escape_from (width - 1) s ++ b'\'' ∷ r) e
            ∙ read_escaped (width - 1) key (acc ++ c ∷ []) s r rest
            ∙ assoc
      ]
    ]
