-- ===== src/Service/Forgetting.antt =====
-- What `Forget` does to the bookkeeping table, and that it leaves the schema alone.
use pg_migrate.Prelude.{
  ◌≡◌, refl, sym, ap, inl, inr, ◌⊎◌, Bool, true, not, Option, none, List, arith, if◌then◌else◌,
}
use pg_migrate.Error.{Error, forget_of, no_bookkeeping_table}
use pg_migrate.Text.{Bytes}
use pg_migrate.Database.{Db, Row, Server}
use pg_migrate.Database.Calls.{wrapping, raise}
use pg_migrate.Database.Table.{table_exists_query, delete_row}
use pg_migrate.Database.Triples.{
  Triple, Triple-pure, Triple-raise, Triple-wrapping, Triple-bind, Triple-if, Triple-mono,
}
use pg_migrate.Database.Statements.{Triple-table_exists_query, Triple-delete_row}
use pg_migrate.Executor.Rows.{table_exists, delete_record_of}
use pg_migrate.Executor.Ids.{is_recorded}
use pg_migrate.Executor.Removal.{IsRemoved}
use pg_migrate.Service.Operations.{Locker, as_run, forget_locked, forget}
use pg_migrate.Service.Runs.{run_after-Ends, with_lock-Ends}

-- What `Forget` leaves that returned this error: the schema as it was; without an error the table
-- without the row of `id`, which was there; with one the same, or the table as it was.
pub record IsForgotten {S : Type 0} (s₀ : S) (l₀ : Option (List Row)) (id : Bytes)
    (error : Option Error) (s : S) (l : Option (List Row)) : Type 0 where
  pub schema : s ≡ s₀
  pub ledger : l ≡ l₀ ⊎ IsRemoved l₀ id l
  pub removed : error ≡ none → IsRemoved l₀ id l × (is_recorded l₀ id ≡ true)

module _ {S : Type 0} (sv : Server S) (s₀ : S) (l₀ : Option (List Row)) (id : Bytes) where
  abbrev NotForgotten : S → Option (List Row) → Type 0
  NotForgotten s l = (s ≡ s₀) × (l ≡ l₀ ⊎ IsRemoved l₀ id l)

  abbrev Deleted : Bool → S → Option (List Row) → Type 0
  Deleted found s l = (s ≡ s₀) × IsRemoved l₀ id l × (is_recorded l₀ id ≡ found)

  delete-Triple :
      Triple (λ s l. (s ≡ s₀) × (l ≡ l₀)) (delete_record_of sv id) Deleted (λ _. NotForgotten)
  unfolding delete_record_of
  delete-Triple = Triple-wrapping _ (delete_row sv id) (
      Triple-delete_row sv Deleted id
        (λ rows s h. (
          h.0,
          record { rows = rows; before = sym h.1; after = refl },
          ap (λ l. is_recorded l id) (sym h.1),
        ))
        (λ n s l h. (h.0, inl h.1)) (λ n b s l h. (h.0, inr h.1)))

  forget-Triple :
      Triple
        (λ s l. (s ≡ s₀) × (l ≡ l₀))
        (forget_locked sv id)
        (λ _. Deleted true)
        (λ _. NotForgotten)
  unfolding forget_locked table_exists
  forget-Triple =
      Triple-bind {Q = λ there s l. (s ≡ s₀) × (l ≡ l₀)}
        (wrapping _ (wrapping _ (table_exists_query sv))) _
        (Triple-wrapping _ _ (
          Triple-wrapping _ _ (
            Triple-mono (table_exists_query sv)
              (Triple-table_exists_query sv {E = λ _. (λ s l. (s ≡ s₀) × (l ≡ l₀))} (λ n s l h. h))
              (λ there s l h. h.0) (λ e s l h. (h.0, inl h.1)))))
        (λ there.
          Triple-bind {Q = Deleted}
            (if not there
              then raise (no_bookkeeping_table id)
              else wrapping (forget_of id) (delete_record_of sv id))
            _
            (Triple-if (not there) _ _ (λ absent. Triple-raise _ (λ s l h. (h.0, inl h.1)))
              (λ present. Triple-wrapping _ _ delete-Triple))
            (λ found.
              Triple-if (not found) _ _ (λ none_left. Triple-raise _ (λ s l h. (h.0, inr h.1)))
                (λ one. Triple-pure tt (λ s l h. (h.0, h.1, ground (arith, h.2, one))))))

-- `Forget` never touches the schema. Without an error a row of `id` was there, and the table is what
-- it was without it. With an error the table is the same, or the row alone is gone.
pub forget_ends :
    {S L : Type 0} (sv : Server S) (lk : Locker L) (id : Bytes) (l : L) (db : Db S)
    → IsForgotten db.schema db.ledger id
        (forget sv lk id l db).0.1
        (forget sv lk id l db).2.schema
        (forget sv lk id l db).2.ledger
unfolding forget
forget_ends sv lk id l db =
    with_lock-Ends (λ r s k. IsForgotten db.schema db.ledger id r.1 s k) lk tt
      (as_run (forget_locked sv id)) l db
      (run_after-Ends (λ r s k. IsForgotten db.schema db.ledger id r.1 s k) tt (forget_locked sv id)
        _ (forget-Triple sv db.schema db.ledger id)
        (λ a d h. record { schema = h.0; ledger = inr h.1; removed = λ e. (h.1, h.2) })
        (λ e s k h. record { schema = h.0; ledger = h.1; removed = λ x. cc }) db (refl, refl))
      (λ e. record { schema = refl; ledger = inl refl; removed = λ x. cc })
