-- ===== src/Text/Order.antt =====
-- `<` on strings is a strict total order.
use pg_migrate.Prelude.{◌≡◌, refl, true, false, [], ◌∷◌, arith}
use pg_migrate.Text.{Bytes, lt}

pub lt_irrefl : (a : Bytes) → lt a a ≡ false
unfolding lt
lt_irrefl [] = refl
lt_irrefl (x ∷ a) = ground (arith, lt_irrefl a)

pub lt_trans : (a b c : Bytes) → lt a b ≡ true → lt b c ≡ true → lt a c ≡ true
unfolding lt
lt_trans (x ∷ a) (y ∷ b) (z ∷ c) p q = ground (arith, lt_trans a b c)
lt_trans _ _ _ p q = ground arith

pub lt_asymm : (a b : Bytes) → lt a b ≡ true → lt b a ≡ false
unfolding lt
lt_asymm (x ∷ a) (y ∷ b) p = ground (arith, lt_asymm a b)
lt_asymm _ _ p = ground arith

-- Strings that neither comparison separates are equal.
pub lt_antisymm : (a b : Bytes) → lt a b ≡ false → lt b a ≡ false → a ≡ b
unfolding lt
lt_antisymm (x ∷ a) (y ∷ b) p q = ground (arith, lt_antisymm a b)
lt_antisymm _ _ p q = ground arith

-- A string that is not below the first of a pair in order is not below it after a step up either.
pub lt_of_not-lt : (a b c : Bytes) → lt b a ≡ false → lt b c ≡ true → lt a c ≡ true
unfolding lt
lt_of_not-lt (x ∷ a) (y ∷ b) (z ∷ c) p q = ground (arith, lt_of_not-lt a b c)
lt_of_not-lt _ _ _ p q = ground arith

pub lt-nil : (a : Bytes) → lt a [] ≡ false
unfolding lt
lt-nil [] = refl
lt-nil (x ∷ a) = refl
