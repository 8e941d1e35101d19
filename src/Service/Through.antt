-- ===== src/Service/Through.antt =====
-- Which files `Baseline` records.
use pg_migrate.Prelude.{◌≡◌, refl, ap, false, List, [], ◌∷◌, ◌++◌, Bool-cases, inl, inr}
use pg_migrate.Result.{Result, ok, err}
use pg_migrate.Error.{Error}
use pg_migrate.Text.{Bytes, contains, equal, equal_iff}
use pg_migrate.Migration.{Migration, migration_ids}
use pg_migrate.Service.Operations.{migrations_through, through_first}

-- The files up to and with the first that has the ID.
pub record IsThrough (files : List Migration) (through_id : Bytes) (chosen : List Migration)
    : Type 0 where
  pub earlier : List Migration
  pub last : Migration
  pub rest : List Migration
  pub splits : files ≡ earlier ++ last ∷ rest
  pub takes : chosen ≡ earlier ++ last ∷ []
  pub is_last : last.id ≡ through_id
  pub is_first : contains (migration_ids earlier) through_id ≡ false

-- What a result of `migrationsThrough` stands for.
abbrev pub Chosen : List Migration → Bytes → Result Error (List Migration) → Type 0
Chosen files through_id (ok chosen) = IsThrough files through_id chosen
Chosen files through_id (err e) = contains (migration_ids files) through_id ≡ false

-- `migrationsThrough` returns the files up to and with the first that has the ID if a file has it, and
-- an error otherwise.
pub migrations_through_ends :
    (files : List Migration) (through_id : Bytes)
    → Chosen files through_id (migrations_through files through_id)
unfolding migrations_through contains
migrations_through_ends [] through_id = refl
migrations_through_ends (m ∷ ms) through_id = elim (Bool-cases (equal m.id through_id)) [
  | inl e ↦ rw e (record {
    earlier = [];
    last = m;
    rest = ms;
    splits = refl;
    takes = refl;
    is_last = (equal_iff m.id through_id).0 e;
    is_first = refl;
  })
  | inr e ↦
      rw e (further e (migrations_through ms through_id) (migrations_through_ends ms through_id))
]
  where
    further :
        equal m.id through_id ≡ false
        → (r : Result Error (List Migration)) → Chosen ms through_id r
        → Chosen (m ∷ ms) through_id (through_first m r)
    further e (ok chosen) h = record {
      earlier = m ∷ h.earlier;
      last = h.last;
      rest = h.rest;
      splits = ap (◌∷◌ m) h.splits;
      takes = ap (◌∷◌ m) h.takes;
      is_last = h.is_last;
      is_first = rw e h.is_first;
    }
    further e (err x) h = rw e h
