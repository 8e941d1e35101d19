-- ===== src/Text/Lines.antt =====
-- Lines, prefixes and suffixes: `strings.Split` and `strings.Cut` at a newline, `strings.HasPrefix`.
use pg_migrate.Prelude.{
  ℕ, ◌-◌, ◌≡◌, refl, ap, Bool, true, false, ◌&&◌, List, [], ◌∷◌, ◌++◌, reverse, ◌==◌, if◌then◌else◌,
  length, take, All, Bool-cases, inl, inr,
}
use pg_migrate.Text.{Bytes}

abbrev pub newline : ℕ
newline = b'\n'

abbrev pub cons_first : ℕ → List Bytes → List Bytes
cons_first c [] = (c ∷ []) ∷ []
cons_first c (l ∷ ls) = (c ∷ l) ∷ ls

-- `strings.Split(s, "\n")`, which is never empty
unfoldable pub lines : Bytes → List Bytes
lines [] = [] ∷ []
lines (c ∷ s) = let rest = lines s in if c == newline then [] ∷ rest else cons_first c rest

-- `strings.Cut(s, "\n")`: what stands before the first newline, and after it
unfoldable pub cut_head : Bytes → Bytes
cut_head [] = []
cut_head (c ∷ s) = let rest = cut_head s in if c == newline then [] else c ∷ rest

unfoldable pub cut_rest : Bytes → Bytes
cut_rest [] = []
cut_rest (c ∷ s) = let rest = cut_rest s in if c == newline then s else rest

unfoldable pub has_prefix : Bytes → Bytes → Bool
has_prefix s [] = true
has_prefix [] (y ∷ p) = false
has_prefix (x ∷ s) (y ∷ p) = x == y && has_prefix s p

unfoldable pub has_suffix : Bytes → Bytes → Bool
unfolding has_prefix
has_suffix s p = has_prefix (reverse s) (reverse p)

-- `strings.TrimSuffix`, where the suffix is there
unfoldable pub trim_suffix : Bytes → Bytes → Bytes
trim_suffix s p = take (length s - length p) s

abbrev pub IsLine : Bytes → Type 0
IsLine = All (λ c. (c == newline) ≡ false)

pub cut_head-append : (l s : Bytes) → IsLine l → cut_head (l ++ newline ∷ s) ≡ l
unfolding cut_head
cut_head-append [] s h = refl
cut_head-append (c ∷ l) s h = rw h.0 (ap (◌∷◌ c) (cut_head-append l s h.1))

pub cut_rest-append : (l s : Bytes) → IsLine l → cut_rest (l ++ newline ∷ s) ≡ s
unfolding cut_rest
cut_rest-append [] s h = refl
cut_rest-append (c ∷ l) s h = rw h.0 (cut_rest-append l s h.1)

pub lines-append : (l s : Bytes) → IsLine l → lines (l ++ newline ∷ s) ≡ l ∷ lines s
unfolding lines
lines-append [] s h = refl
lines-append (c ∷ l) s h = rw h.0 (ap (cons_first c) (lines-append l s h.1))

-- The first line is the one that a cut takes off.
pub lines-cut_head : (s : Bytes) → (ls : List Bytes) × (lines s ≡ cut_head s ∷ ls)
unfolding lines cut_head
lines-cut_head [] = ([], refl)
lines-cut_head (c ∷ s) = elim (Bool-cases (c == newline)) [
  | inl e ↦ (lines s, rw e)
  | inr e ↦ ((lines-cut_head s).0, rw e (ap (cons_first c) (lines-cut_head s).1))
]

pub IsLine-cut_head : (s : Bytes) → IsLine (cut_head s)
unfolding cut_head
IsLine-cut_head [] = tt
IsLine-cut_head (c ∷ s) = elim (Bool-cases (c == newline)) [
  | inl e ↦ rw e tt
  | inr e ↦ rw e (e, IsLine-cut_head s)
]
