-- ===== src/New/Slug.antt =====
-- `slugify` of cmd/pg-migrate/new.go: the slug of a new migration.
use pg_migrate.Prelude.{
  ℕ, zero, suc, ◌≤◌, ◌<◌, ◌≡◌, refl, sym, ap, ◌∙◌, inl, inr, ◌⊎◌, Bool, true, false, not, ◌&&◌,
  ◌||◌, [], ◌∷◌, if◌then◌else◌, is_nil, is_nil_lem, leb, ltb, ◌==◌, length, take, reverse, All,
  arith, Bool-cases,
}
use pg_migrate.Result.{ok, err}
use pg_migrate.Text.{Bytes}
use pg_migrate.Text.Space.{trim, trim_space, has_byte}
use pg_migrate.Text.Unicode.{Unicode, is_ascii_letter, is_ascii_digit}
use pg_migrate.Text.Trimmed.{
  begins_with_one, trim-some, trim-front, trim-back, length-trim, All-trim, trim-nil,
}
use pg_migrate.New.{slug_from, slugify, is_slug_letter, underscore, cut_slug, no_letters}

-- a to z, 0 to 9, and the underscore
abbrev pub is_slug_byte : ℕ → Bool
is_slug_byte c = leb b'a' c && leb c b'z' || leb b'0' c && leb c b'9' || c == b'_'

abbrev pub is_word_byte : ℕ → Bool
is_word_byte c = is_ascii_letter c || is_ascii_digit c

abbrev pub is_upper : ℕ → Bool
is_upper c = leb b'A' c && leb c b'Z'

-- A slug: one to a hundred letters, digits and underscores, with no underscore at either end.
pub record IsSlug (s : Bytes) : Type 0 where
  pub bytes : All (λ c. is_slug_byte c ≡ true) s
  pub short : length s ≤ 100
  pub some_byte : 0 < length s
  pub front : begins_with_one underscore s ≡ false
  pub back : begins_with_one underscore (reverse s) ≡ false

-- What Go's tables say of ASCII: letters and digits are the known ones, and no upper case letter is left
-- by `ToLower`.
pub record KnowsAscii (u : Unicode) : Type 0 where
  pub letters : (c : ℕ) → c < 0x7f → u.is_letter c ≡ is_ascii_letter c
  pub digits : (c : ℕ) → c < 0x7f → u.is_digit c ≡ is_ascii_digit c
  pub lower : (s : Bytes) → All (λ c. is_upper c ≡ false) (u.to_lower s)

module _ (u : Unicode) (known : KnowsAscii u) where
  slug_letter_lem : (c : ℕ) → is_slug_letter u c ≡ is_word_byte c
  slug_letter_lem c = elim (Bool-cases (ltb c 0x7f)) [
    | inl e ↦ rw e (
        ap (λ b. b || u.is_digit c) (known.letters c (below c e))
        ∙ ap (λ b. is_ascii_letter c || b) (known.digits c (below c e)))
    | inr e ↦ rw e (beyond c e)
  ]
    where
      below : (c : ℕ) → ltb c 0x7f ≡ true → c < 0x7f
      below c e = ground arith

      beyond : (c : ℕ) → ltb c 0x7f ≡ false → false ≡ is_word_byte c
      beyond c e = ground arith

  letter_byte : (c : ℕ) → is_upper c ≡ false → is_slug_letter u c ≡ true → is_slug_byte c ≡ true
  letter_byte c low h = slug_byte c low (sym (slug_letter_lem c) ∙ h)
    where
      slug_byte : (c : ℕ) → is_upper c ≡ false → is_word_byte c ≡ true → is_slug_byte c ≡ true
      slug_byte c l k = ground arith

  -- Where only underscores come out, no letter or digit went in.
  slug_from-underscores :
      (last_underscore : Bool) (s : Bytes)
      → All (λ c. has_byte underscore c ≡ true) (slug_from u last_underscore s)
      → All (λ c. is_word_byte c ≡ false) s
  unfolding slug_from has_byte
  slug_from-underscores last_underscore [] h = tt
  slug_from-underscores last_underscore (c ∷ s) h = elim (Bool-cases (is_slug_letter u c)) [
    | inl e ↦ no_word c (sym (slug_letter_lem c) ∙ e) ((rw e at h).0)
    | inr e ↦ (
      sym (slug_letter_lem c) ∙ e,
      slug_from-underscores true s (folded last_underscore (rw e at h)),
    )
  ]
    where
      no_word : {A : Type 0} (c : ℕ) → is_word_byte c ≡ true → has_byte underscore c ≡ true → A
      no_word c word h = absurd (ground (arith, word, h))

      folded :
          (b : Bool)
          → All
              (λ c. has_byte underscore c ≡ true)
              (if not b then b'_' ∷ slug_from u true s else slug_from u true s)
          → All (λ c. has_byte underscore c ≡ true) (slug_from u true s)
      folded true k = k
      folded false k = k.1

  slug_from-bytes :
      (last_underscore : Bool) (s : Bytes)
      → All (λ c. is_upper c ≡ false) s
      → All (λ c. is_slug_byte c ≡ true) (slug_from u last_underscore s)
  unfolding slug_from
  slug_from-bytes last_underscore [] h = tt
  slug_from-bytes last_underscore (c ∷ s) h = elim (Bool-cases (is_slug_letter u c)) [
    | inl e ↦ rw e (letter_byte c h.0 e, slug_from-bytes false s h.1)
    | inr e ↦ rw e (folded last_underscore (slug_from-bytes true s h.1))
  ]
    where
      folded :
          (b : Bool)
          → All (λ c. is_slug_byte c ≡ true) (slug_from u true s)
          → All
              (λ c. is_slug_byte c ≡ true)
              (if not b then b'_' ∷ slug_from u true s else slug_from u true s)
      folded true k = k
      folded false k = (refl, k)

take-length : (n : ℕ) (s : Bytes) → length (take n s) ≤ n
take-length zero s = omega arith
take-length (suc n) [] = omega arith
take-length (suc n) (c ∷ s) = omega (arith, take-length n s)

All-take : (P : ℕ → Type 0) (n : ℕ) (s : Bytes) → All P s → All P (take n s)
All-take P zero s h = tt
All-take P (suc n) [] h = tt
All-take P (suc n) (c ∷ s) h = (h.0, All-take P n s h.1)

take-some :
    (n : ℕ) (s : Bytes)
    → 0 < length s
    → begins_with_one underscore s ≡ false
    → 0 < length (trim underscore (take (suc n) s))
take-some n [] h front = absurd (omega arith)
take-some n (c ∷ s) h front = trim-some underscore c (take n s) front

-- The cut at a hundred bytes leaves a slug.
cut_slug-IsSlug :
    (s : Bytes)
    → All (λ c. is_slug_byte c ≡ true) s
    → 0 < length s
    → begins_with_one underscore s ≡ false
    → begins_with_one underscore (reverse s) ≡ false
    → IsSlug (cut_slug s)
cut_slug-IsSlug s bytes some_byte front back = elim (Bool-cases (ltb 100 (length s))) [
  | inl long ↦ rw long (record {
    bytes = All-trim underscore _ (take 100 s) (All-take _ 100 s bytes);
    short = omega (arith, length-trim underscore (take 100 s), take-length 100 s);
    some_byte = take-some 99 s some_byte front;
    front = trim-front underscore (take 100 s);
    back = trim-back underscore (take 100 s);
  })
  | inr fits ↦ rw fits (record {
    bytes = bytes;
    short = ground arith;
    some_byte = some_byte;
    front = front;
    back = back;
  })
]

some_of : (s : Bytes) → is_nil s ≡ false → 0 < length s
some_of [] h = cc
some_of (c ∷ s) h = omega arith

-- What `slugify` makes of a name is a slug, of one to a hundred lower case letters, digits and underscores
-- with no underscore at either end; or there is an error, which names the name, and the name in lower case
-- has no ASCII letter or digit.
pub slugify_ends :
    (u : Unicode) (name : Bytes)
    → KnowsAscii u
    → ((slug : Bytes) × (slugify u name ≡ ok slug) × IsSlug slug)
      ⊎ ((slugify u name ≡ err (no_letters name))
          × All (λ c. is_word_byte c ≡ false) (u.to_lower (trim_space name)))
unfolding slugify
slugify_ends u name known =
    let folded = slug_from u true (u.to_lower (trim_space name)) in
    let slug = trim underscore folded in
    elim (Bool-cases (is_nil slug)) [
      | inl e ↦ inr (
        rw e refl,
        slug_from-underscores u known true _ (trim-nil underscore folded (is_nil_lem slug e)),
      )
      | inr e ↦ inl (
        cut_slug slug,
        rw e refl,
        cut_slug-IsSlug slug
            (All-trim underscore _ folded
              (slug_from-bytes u known true _ (known.lower (trim_space name))))
            (some_of slug e) (trim-front underscore folded) (trim-back underscore folded),
      )
    ]
