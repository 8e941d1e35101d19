-- ===== src/Text/Trimmed.antt =====
-- What `strings.Trim` leaves of a text.
use pg_migrate.Prelude.{
  ℕ, ◌≤◌, ◌<◌, ◌≡◌, refl, sym, ap, ◌∙◌, inl, inr, Bool, true, false, [], ◌∷◌, ◌++◌, length,
  length-append, reverse, All, All-append, arith, Bool-cases,
}
use mathlib.Core.List.{reverse-cons, reverse-append, reverse-reverse}
use pg_migrate.Text.{Bytes}
use pg_migrate.Text.Space.{has_byte, trim, trim_left}

abbrev pub begins_with_one : Bytes → Bytes → Bool
begins_with_one cutset [] = false
begins_with_one cutset (c ∷ s) = has_byte cutset c

pub All-reverse : (P : ℕ → Type 0) (s : Bytes) → All P s → All P (reverse s)
All-reverse P [] h = tt
All-reverse P (c ∷ s) h =
    rw (reverse-cons c s) (All-append P (reverse s) (c ∷ []) (All-reverse P s h.1) (h.0, tt))

pub length-reverse : (s : Bytes) → length (reverse s) ≡ length s
length-reverse [] = refl
length-reverse (c ∷ s) =
    omega
      (arith, ap length (reverse-cons c s), length-append (reverse s) (c ∷ []), length-reverse s)

module _ (cutset : Bytes) where
  trim_left-suffix : (s : Bytes) → (p : Bytes) × (s ≡ p ++ trim_left cutset s)
  unfolding trim_left
  trim_left-suffix [] = ([], refl)
  trim_left-suffix (c ∷ s) = elim (Bool-cases (has_byte cutset c)) [
    | inl e ↦ let (p, h) = trim_left-suffix s in (c ∷ p, rw e (ap (◌∷◌ c) h))
    | inr e ↦ ([], rw e refl)
  ]

  trim_left-front : (s : Bytes) → begins_with_one cutset (trim_left cutset s) ≡ false
  unfolding trim_left
  trim_left-front [] = refl
  trim_left-front (c ∷ s) = elim (Bool-cases (has_byte cutset c)) [
    | inl e ↦ rw e (trim_left-front s)
    | inr e ↦ rw e e
  ]

  pub trim_left-keeps :
      (s : Bytes) (c : ℕ) → has_byte cutset c ≡ false → 0 < length (trim_left cutset (s ++ c ∷ []))
  unfolding trim_left
  trim_left-keeps [] c h = rw h (omega arith)
  trim_left-keeps (d ∷ s) c h = elim (Bool-cases (has_byte cutset d)) [
    | inl e ↦ rw e (trim_left-keeps s c h)
    | inr e ↦ rw e (omega arith)
  ]

  front_of_prefix :
      (z q : Bytes) → begins_with_one cutset (z ++ q) ≡ false → begins_with_one cutset z ≡ false
  front_of_prefix [] q h = refl
  front_of_prefix (c ∷ z) q h = h

  -- `strings.Trim` drops an end of a text that is trimmed in front.
  pub trim_prefix : (s : Bytes) → (q : Bytes) × (trim_left cutset s ≡ trim cutset s ++ q)
  unfolding trim
  trim_prefix s =
      let y = trim_left cutset s in
      let (p, h) = trim_left-suffix (reverse y) in
      (
        reverse p,
        sym (reverse-reverse y) ∙ ap reverse h ∙ reverse-append p (trim_left cutset (reverse y)),
      )

  pub trim-front : (s : Bytes) → begins_with_one cutset (trim cutset s) ≡ false
  trim-front s =
      let (q, h) = trim_prefix s in
      front_of_prefix (trim cutset s) q (ap (begins_with_one cutset) (sym h) ∙ trim_left-front s)

  pub trim-back : (s : Bytes) → begins_with_one cutset (reverse (trim cutset s)) ≡ false
  unfolding trim
  trim-back s =
      ap (begins_with_one cutset)
        (reverse-reverse (trim_left cutset (reverse (trim_left cutset s))))
      ∙ trim_left-front (reverse (trim_left cutset s))

  length-trim_left : (s : Bytes) → length (trim_left cutset s) ≤ length s
  length-trim_left s =
      let (p, h) = trim_left-suffix s in
      omega (arith, ap length h, length-append p (trim_left cutset s))

  pub length-trim : (s : Bytes) → length (trim cutset s) ≤ length s
  length-trim s =
      let (q, h) = trim_prefix s in
      omega (arith, ap length h, length-append (trim cutset s) q, length-trim_left s)

  All-trim_left : (P : ℕ → Type 0) (s : Bytes) → All P s → All P (trim_left cutset s)
  unfolding trim_left
  All-trim_left P [] h = tt
  All-trim_left P (c ∷ s) h = elim (Bool-cases (has_byte cutset c)) [
    | inl e ↦ rw e (All-trim_left P s h.1)
    | inr e ↦ rw e h
  ]

  pub All-trim : (P : ℕ → Type 0) (s : Bytes) → All P s → All P (trim cutset s)
  unfolding trim
  All-trim P s h = All-reverse P _ (All-trim_left P _ (All-reverse P _ (All-trim_left P s h)))

  -- A text that begins with a character to keep is not trimmed away.
  pub trim-some : (c : ℕ) (s : Bytes) → has_byte cutset c ≡ false → 0 < length (trim cutset (c ∷ s))
  unfolding trim trim_left
  trim-some c s h = rw h (
      rw (reverse-cons c s) (
        omega (
          arith,
          length-reverse (trim_left cutset (reverse s ++ c ∷ [])),
          trim_left-keeps (reverse s) c h,
        )))

-- A text of which nothing is left has nothing but the characters that are trimmed.
trim_left-nil : (cutset s : Bytes) → trim_left cutset s ≡ [] → All (λ c. has_byte cutset c ≡ true) s
unfolding trim_left
trim_left-nil cutset [] h = tt
trim_left-nil cutset (c ∷ s) h = elim (Bool-cases (has_byte cutset c)) [
  | inl e ↦ (e, trim_left-nil cutset s (rw e at h))
  | inr e ↦ not_nil (rw e at h)
]
  where
    not_nil : {A : Type 0} → c ∷ s ≡ [] → A
    not_nil h = cc

pub trim-nil : (cutset s : Bytes) → trim cutset s ≡ [] → All (λ c. has_byte cutset c ≡ true) s
unfolding trim
trim-nil cutset s h = trim_left-nil cutset s (
    front_nil (trim_left cutset s) (trim_left-front cutset s) (
      rw (reverse-reverse) at
        (All-reverse _ _ (trim_left-nil cutset (reverse (trim_left cutset s)) (unreversed _ h)))))
  where
    unreversed : (x : Bytes) → reverse x ≡ [] → x ≡ []
    unreversed [] e = refl
    unreversed (c ∷ x) e = absurd (omega (arith, length-reverse (c ∷ x), ap length e))

    front_nil :
        (y : Bytes)
        → begins_with_one cutset y ≡ false
        → All (λ c. has_byte cutset c ≡ true) y
        → y ≡ []
    front_nil [] e all = refl
    front_nil (c ∷ y) e all = cc (all.0)
