-- ===== src/Executor/Reversible.antt =====
-- What `EnsureReversible` finds out.
use pg_migrate.Prelude.{
  ◌≡◌, refl, sym, ◌∙◌, Bool, true, false, not, ◌||◌, Option, none, some, List, [], ◌∷◌, arith,
  if◌then◌else◌, All, All-mono,
}
use pg_migrate.Result.{Result, ok, err}
use pg_migrate.Text.{Bytes, contains, contains_self}
use pg_migrate.Directives
use pg_migrate.Directives.{ScriptError, parse_directive_header}
use pg_migrate.Database.{Db, Row, Server, find_row}
use pg_migrate.Database.Calls.{lift, wrapping}
use pg_migrate.Database.Table.{select_down_script}
use pg_migrate.Database.Triples.{
  Post, Triple, Triple-pure, Triple-raise, Triple-lift, Triple-wrapping, Triple-bind, Triple-mono,
}
use pg_migrate.Database.Statements.{Triple-select_down_script}
use pg_migrate.Executor.Statements.{of_script}
use pg_migrate.Executor.Pinned.{Same}
use pg_migrate.Executor.Rollback.{
  irreversible_row, irreversible_ids, refuse_irreversible, ensure_reversible,
}

abbrev without_marker : Result ScriptError (List Bytes × Bytes) → Bool
without_marker (ok both) = not (contains both.0 Directives.irreversible)
without_marker (err e) = false

-- A down script that parses and does not carry the marker of an irreversible migration.
abbrev pub is_reversible : Bytes → Bool
is_reversible down_script = without_marker (parse_directive_header down_script)

abbrev reversible_row : Option Row → Bool
reversible_row none = true
reversible_row (some r) = is_reversible r.down_script

abbrev pub reversible_in : Option (List Row) → Bytes → Bool
reversible_in none id = true
reversible_in (some rows) id = reversible_row (find_row id rows)

-- Each of `ids` that has a row has a reversible one.
abbrev pub AllReversible : Option (List Row) → List Bytes → Type 0
AllReversible l ids = All (λ id. reversible_in l id ≡ true) ids

module _ {S : Type 0} (s₀ : S) (l₀ : Option (List Row)) where
  irreversible_row-Triple :
      (sv : Server S) (id : Bytes) (o : Option Row)
      → Triple
          (Same s₀ l₀)
          (irreversible_row sv id o)
          (λ marked s l. Same s₀ l₀ s l × (marked ≡ not (reversible_row o)))
          (λ _. Same s₀ l₀)
  irreversible_row-Triple sv id none = Triple-pure false (λ s l h. (h, refl))
  irreversible_row-Triple sv id (some r) =
      Triple-bind
        {Q = λ both s l.
          Same s₀ l₀ s l
          × (without_marker (parse_directive_header r.down_script)
              ≡ not (contains both.0 Directives.irreversible))}
        (wrapping _ (lift (of_script (parse_directive_header r.down_script)))) _
        (Triple-wrapping _ _ (Triple-lift _ (parsed (parse_directive_header r.down_script))))
        (λ both. Triple-pure _ (λ s l h. (h.0, ground (arith, h.1))))
    where
      parsed :
          (r : Result ScriptError (List Bytes × Bytes)) (s : S) (l : Option (List Row))
          → Same s₀ l₀ s l
          → Post
              (λ both s l.
                Same s₀ l₀ s l × (without_marker r ≡ not (contains both.0 Directives.irreversible)))
              (λ e s l. Same s₀ l₀ s l)
              (of_script r)
              s
              l
      parsed (ok both) s l h = (h, refl)
      parsed (err e) s l h = h

  abbrev Checked : List Bytes → List Bytes → Type 0
  Checked marked ids = All (λ id. (reversible_in l₀ id || contains marked id) ≡ true) ids

  irreversible_ids-Triple :
      (sv : Server S) (ids : List Bytes)
      → Triple
          (Same s₀ l₀)
          (irreversible_ids sv ids)
          (λ marked s l. Same s₀ l₀ s l × Checked marked ids)
          (λ _. Same s₀ l₀)
  unfolding irreversible_ids contains
  irreversible_ids-Triple sv [] = Triple-pure [] (λ s l h. (h, tt))
  irreversible_ids-Triple sv (id ∷ rest) =
      Triple-bind {Q = λ o s l. Same s₀ l₀ s l × (reversible_in l₀ id ≡ reversible_row o)}
        (wrapping _ (select_down_script sv id)) _
        (Triple-wrapping _ _ (
          Triple-mono (select_down_script sv id)
            (Triple-select_down_script sv {E = λ _. Same s₀ l₀} id (λ n s l h. h))
            (λ o s l h. (h.0, there o l h.0.1 h.1)) (λ e s l h. h)))
        (λ o.
          Triple-bind {Q = λ marked s l. Same s₀ l₀ s l × (marked ≡ not (reversible_in l₀ id))}
            (irreversible_row sv id o) _
            (record {
              at = λ db h.
                  (Triple-mono (irreversible_row sv id o) (irreversible_row-Triple sv id o)
                      (λ marked s l k. (k.0, ground (arith, k.1, h.1))) (λ e s l k. k)).at
                    db h.0;
            })
            (λ marked.
              Triple-bind
                {Q = λ others s l.
                  Same s₀ l₀ s l × Checked others rest × (marked ≡ not (reversible_in l₀ id))}
                (irreversible_ids sv rest) _
                (record {
                  at = λ db h.
                      (Triple-mono (irreversible_ids sv rest) (irreversible_ids-Triple sv rest)
                          (λ others s l k. (k.0, k.1, h.1)) (λ e s l k. k)).at
                        db h.0;
                })
                (λ others. Triple-pure _ (λ s l h. (h.0, checked marked others h.2 h.1)))))
    where
      there :
          (o : Option Row) (l : Option (List Row))
          → l ≡ l₀
          → ((rows : List Row) × (l ≡ some rows) × (find_row id rows ≡ o))
          → reversible_in l₀ id ≡ reversible_row o
      there o l same h = rw (sym same ∙ h.1, h.2)

      more : (others : List Bytes) → Checked others rest → Checked (id ∷ others) rest
      more others = All-mono _ _ (λ k h. ground arith) rest

      checked :
          (marked : Bool) (others : List Bytes)
          → marked ≡ not (reversible_in l₀ id)
          → Checked others rest
          → Checked (if marked then id ∷ others else others) (id ∷ rest)
      checked true others e h = (ground (arith, contains_self id others), more others h)
      checked false others e h = (ground arith, h)

  pub ensure_reversible-Triple :
      (sv : Server S) (ids : List Bytes)
      → Triple
          (Same s₀ l₀)
          (ensure_reversible sv ids)
          (λ _ s l. Same s₀ l₀ s l × AllReversible l₀ ids)
          (λ _. Same s₀ l₀)
  unfolding ensure_reversible contains
  ensure_reversible-Triple sv ids =
      Triple-bind (irreversible_ids sv ids) _ (irreversible_ids-Triple sv ids) refused
    where
      no_marks : Checked [] ids → AllReversible l₀ ids
      no_marks h =
          All-mono (λ k. (reversible_in l₀ k || contains [] k) ≡ true) _ (λ k e. ground arith) ids h

      refused :
          (marked : List Bytes)
          → Triple
              (λ s l. Same s₀ l₀ s l × Checked marked ids)
              (refuse_irreversible sv marked)
              (λ _ s l. Same s₀ l₀ s l × AllReversible l₀ ids)
              (λ _. Same s₀ l₀)
      refused [] = Triple-pure tt (λ s l h. (h.0, no_marks h.1))
      refused (id ∷ marked) = Triple-raise _ (λ s l h. h.0)

-- `EnsureReversible` changes nothing, and it returns nil only if each of the IDs that has a row has
-- one whose down script parses and is not marked irreversible.
pub ensure_reversible_ends :
    {S : Type 0} (sv : Server S) (ids : List Bytes) (db : Db S)
    → Post
        (λ _ s l. (s ≡ db.schema) × (l ≡ db.ledger) × AllReversible db.ledger ids)
        (λ _ s l. (s ≡ db.schema) × (l ≡ db.ledger))
        (ensure_reversible sv ids db).0
        (ensure_reversible sv ids db).1.schema
        (ensure_reversible sv ids db).1.ledger
ensure_reversible_ends sv ids db =
    (Triple-mono (ensure_reversible sv ids) (ensure_reversible-Triple db.schema db.ledger sv ids)
        (λ a s l h. (h.0.0, h.0.1, h.1)) (λ e s l h. h)).at
      db (refl, refl)
