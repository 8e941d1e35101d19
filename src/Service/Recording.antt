-- ===== src/Service/Recording.antt =====
-- The rows that `RecordApplied` writes.
use pg_migrate.Prelude.{
  ◌≡◌, refl, ◌∙◌, ap, inl, inr, ◌⊎◌, Option, none, some, List, [], ◌∷◌, ◌++◌, map, append-nil,
  append_assoc,
}
use mathlib.Core.List.{map-append}
use pg_migrate.Error.{Error}
use pg_migrate.Text.{Bytes}
use pg_migrate.Migration.{Migration}
use pg_migrate.Database.{Row, Server}
use pg_migrate.Database.Calls.{wrapping}
use pg_migrate.Database.Table.{insert_row}
use pg_migrate.Database.Triples.{
  Pred, Triple, Triple-pure, Triple-wrapping, Triple-bind, Triple-mono, Triple-in_transaction,
}
use pg_migrate.Database.Statements.{Triple-insert_row}
use pg_migrate.Executor.Apply.{record_all, record_applied}
use pg_migrate.Service.Loading.{rows_of}

-- What a row holds but for its number and its time.
abbrev pub Entry : Type 0
Entry = Bytes × Bytes × Bytes × Option Error

abbrev pub entries : List Row → List Entry
entries = map (λ r. (r.id, r.up_script, r.down_script, r.error))

abbrev pub entries_of : List Migration → List Entry
entries_of = map (λ m. (m.id, m.up_script, m.down_script, none))

module _ {S : Type 0} (sv : Server S) (s₀ : S) where
  abbrev pub Holds : List Entry → Option (List Row) → Type 0
  Holds base l = (rows : List Row) × (l ≡ some rows) × (entries rows ≡ base)

  abbrev pub HoldsOn : List Entry → Pred S
  HoldsOn base s l = (s ≡ s₀) × Holds base l

  record_all-Triple :
      (ms : List Migration) (base : List Entry)
      → Triple
          (HoldsOn base)
          (record_all sv ms)
          (λ _. HoldsOn (base ++ entries_of ms))
          (λ _ s l. Unit)
  unfolding record_all
  record_all-Triple [] base = Triple-pure tt (λ s l h. rw (append-nil base) h)
  record_all-Triple (m ∷ ms) base =
      Triple-bind {Q = λ _. HoldsOn (base ++ (m.id, m.up_script, m.down_script, none) ∷ [])}
        (wrapping _ (insert_row sv m none)) _
        (Triple-wrapping _ _ (
          Triple-insert_row sv _ m none
            (λ number time rows s new h. (
              h.0,
              (
                _,
                refl,
                map-append _ rows _
                    ∙ ap (λ es. es ++ (m.id, m.up_script, m.down_script, none) ∷ [])
                        (same rows h.1),
              ),
            ))
            (λ n s l h. tt) (λ n s l h. tt)))
        (λ _.
          Triple-mono (record_all sv ms)
            (record_all-Triple ms (base ++ (m.id, m.up_script, m.down_script, none) ∷ []))
            (λ a s l h. rw (append_assoc) at h) (λ e s l h. h))
    where
      same : (rows : List Row) → Holds base (some rows) → entries rows ≡ base
      same rows (others, e, h) = ap (λ l. entries (rows_of l)) e ∙ h

  pub record_applied-Triple :
      (ms : List Migration)
      → Triple
          (λ s l. (s ≡ s₀) × (l ≡ some []))
          (record_applied sv ms)
          (λ _. HoldsOn (entries_of ms))
          (λ e s l. ((s ≡ s₀) × (l ≡ some [])) ⊎ HoldsOn (entries_of ms) s l)
  unfolding record_applied
  record_applied-Triple [] = Triple-pure tt (λ s l h. (h.0, ([], h.1, refl)))
  record_applied-Triple (m ∷ ms) =
      Triple-in_transaction {E' = λ _ s l. Unit} sv _
        (record { at = λ db h. (record_all-Triple (m ∷ ms) []).at db (h.0, ([], h.1, refl)) })
        (λ e s l h. inl h) (λ n a s l w h. inr h)
