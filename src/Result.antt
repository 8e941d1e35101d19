-- ===== src/Result.antt =====
-- A value or an error, for functions that return `(T, error)`.
use pg_migrate.Prelude.{◌≡◌, refl}

pub data Result {ℓ} (E A : Type ℓ) : Type ℓ where
  ok : A → Result E A
  err : E → Result E A

module _ {ℓ} {E A B : Type ℓ} where
  infixl 5 ◌>>=◌
  abbrev pub ◌>>=◌ : Result E A → (A → Result E B) → Result E B
  ok a >>= f = f a
  err e >>= f = err e

  -- What a chain of two steps that succeeds says of each.
  pub bind-eq-ok :
      (first : Result E A) (next : A → Result E B) {done : B}
      → (first >>= next) ≡ ok done
      → (value : A) × (first ≡ ok value) × (next value ≡ ok done)
  bind-eq-ok (err failure) next both = cc
  bind-eq-ok (ok value) next both = (value, refl, both)

module _ {ℓ} {E A : Type ℓ} where
  pub ok_injective : {a b : A} → ◌≡◌ {A = Result E A} (ok a) (ok b) → a ≡ b
  ok_injective h = cc

  pub err≢ok {κ} : {C : Type κ} {e : E} {a : A} → err e ≡ ok a → C
  err≢ok h = cc
