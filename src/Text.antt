-- ===== src/Text.antt =====
-- Go strings as lists of bytes, and what the program uses of package `strings` and of `<`, `==`.
pub mod Order
pub mod Space
pub mod Lines
pub mod Unicode
pub mod Trimmed
use Prim.Native.Char.{code}
use pg_migrate.Prelude.{
  ℕ, suc, ◌+◌, ◌≡◌, refl, ◌↔◌, ap, Bool, true, false, not, ◌&&◌, ◌||◌, List, [], ◌∷◌, ◌++◌, String,
  arith, ltb, leb, ◌==◌, if◌then◌else◌, Option, none, some, length, Bool-cases, inl, inr,
}

abbrev pub Bytes : Type 0
Bytes = List ℕ

-- A literal of the source. Every literal used is ASCII, so its code points are its bytes.
abbrev pub codes : String → Bytes
codes String.[] = []
codes (String.◌∷◌ c s) = code c ∷ codes s

-- `a == b` on strings
unfoldable pub equal : Bytes → Bytes → Bool
equal [] [] = true
equal (x ∷ a) (y ∷ b) = x == y && equal a b
equal _ _ = false

pub equal_iff : (a b : Bytes) → (equal a b ≡ true) ↔ (a ≡ b)
unfolding equal
equal_iff [] [] = ground arith
equal_iff [] (y ∷ b) = ground arith
equal_iff (x ∷ a) [] = ground arith
equal_iff (x ∷ a) (y ∷ b) = ground (arith, equal_iff a b)

-- `a < b` on strings: bytewise, and a proper prefix comes first
unfoldable pub lt : Bytes → Bytes → Bool
lt [] [] = false
lt [] (y ∷ b) = true
lt (x ∷ a) [] = false
lt (x ∷ a) (y ∷ b) = ltb x y || (x == y && lt a b)

-- membership in a set of strings, the keys of a map
unfoldable pub contains : List Bytes → Bytes → Bool
unfolding equal
contains [] k = false
contains (x ∷ xs) k = equal x k || contains xs k

pub contains_self : (k : Bytes) (xs : List Bytes) → contains (k ∷ xs) k ≡ true
unfolding contains
contains_self k xs = ground (arith, equal_iff k k)

pub contains-append :
    (xs ys : List Bytes) (k : Bytes) → contains (xs ++ ys) k ≡ (contains xs k || contains ys k)
unfolding contains
contains-append [] ys k = refl
contains-append (x ∷ xs) ys k = ground (arith, contains-append xs ys k)
