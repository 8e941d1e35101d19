-- ===== src/Service/Removed.antt =====
-- What `Rollback` takes off the ledger.
use pg_migrate.Prelude.{
  ◌≡◌, refl, sym, ◌∙◌, ap, not, ◌&&◌, Option, none, some, List, [], ◌∷◌, ℤ, map, reverse, arith,
  drop-nil, ℕ, zero, suc, ◌-◌, ◌<◌, ◌==◌, ◌||◌, ltb, true, false, Bool-cases, ◌⊎◌, inl, inr, pos,
  negsuc, ◌++◌, drop, take, length, length-drop, take-append-drop,
}
use mathlib.Core.List.{map-append, reverse-cons}
use pg_migrate.Error.{Error, get_applied, ensure_reversible as ensuring}
use pg_migrate.Text.{Bytes, contains, contains-append}
use pg_migrate.Text.Unicode.{Unicode}
use pg_migrate.Migration.{Migration, migration_ids}
use pg_migrate.Database.{Db, Row, Server, row_ids}
use pg_migrate.Database.Calls.{wrapping, ◌>>=◌}
use pg_migrate.Database.Triples.{Triple-wrapping, Triple-mono}
use pg_migrate.Executor.Rows.{AppliedMigration, scan_row, get_applied_migrations}
use pg_migrate.Executor.Rollback.{ensure_reversible}
use pg_migrate.Executor.Plan.{rollback_loop}
use pg_migrate.Executor.Ids.{is_recorded}
use pg_migrate.Executor.Progress.{Progress, RolledBack, rollback_loop_lem}
use pg_migrate.Executor.Outcome.{Progress-none}
use pg_migrate.Executor.Reversible.{ensure_reversible-Triple}
use pg_migrate.Service.Guards.{of_record}
use pg_migrate.Service.Operations.{
  RunResult, no_result, Locker, ready, candidates, rollback_count, rollback_of_applied,
  rolled_back_result, rollback_locked, rollback,
}
use pg_migrate.Service.Runs.{Goal, Ends, run_after-Ends, with_lock-Ends}
use pg_migrate.Service.Loading.{rows_of, ready_rows-Triple}
use pg_migrate.Service.Recorded.{is_recorded-rows_of}

-- The IDs of the records that a `Rollback` with this count takes, last applied first.
abbrev newest : ℤ → List Row → List Bytes
newest count rows = map (λ a. a.id) (reverse (candidates count (map scan_row rows)))

-- What `Rollback` did, which reported `r` and took the ledger from `l₀` to `l`.
record IsTakenOff (count : ℤ) (l₀ : Option (List Row)) (r : RunResult × Option Error)
    (l : Option (List Row)) : Type 0 where
  pub progress : Progress (newest count (rows_of l₀)) (migration_ids r.0.rolled_back) r.1
  pub ids :
      r.1 ≡ none
      → (k : Bytes)
      → is_recorded l k ≡ (is_recorded l₀ k && not (contains (newest count (rows_of l₀)) k))

-- How many of the records a `Rollback` with this count takes: that many, if there are as many; else all.
abbrev pub IsCount : ℤ → (older newer : List Bytes) → Type 0
IsCount (negsuc n) older newer = older ≡ []
IsCount (pos n) older newer =
    ((0 < n) × (length newer ≡ n)) ⊎ ((older ≡ []) × ((n ≡ 0) ⊎ (length newer < n)))

-- What `Rollback` did, which reported `r` and took the ledger from `l₀` to `l`: it goes through the
-- records of `newer`, the last ones of the table, from the end.
pub record IsRolledBack (count : ℤ) (l₀ : Option (List Row)) (r : RunResult × Option Error)
    (l : Option (List Row)) : Type 0 where
  pub older : List Bytes
  pub newer : List Bytes
  pub table : row_ids (rows_of l₀) ≡ older ++ newer
  pub counted : IsCount count older newer
  pub progress : Progress (reverse newer) (migration_ids r.0.rolled_back) r.1
  pub ids :
      r.1 ≡ none → (k : Bytes) → is_recorded l k ≡ (is_recorded l₀ k && not (contains newer k))

-- how many records are left
abbrev left : ℤ → ℕ → ℕ
left count len = len - rollback_count count len

map-drop : {A B : Type 0} (f : A → B) (n : ℕ) (xs : List A) → map f (drop n xs) ≡ drop n (map f xs)
map-drop f zero xs = refl
map-drop f (suc n) [] = refl
map-drop f (suc n) (x ∷ xs) = map-drop f n xs

map-reverse : {A B : Type 0} (f : A → B) (xs : List A) → map f (reverse xs) ≡ reverse (map f xs)
map-reverse f [] = refl
map-reverse f (x ∷ xs) =
    rw (reverse-cons, map-append) (rw (map-reverse f xs) (sym (reverse-cons (f x) (map f xs))))

scanned_ids : (rows : List Row) → map (λ a. a.id) (map scan_row rows) ≡ row_ids rows
scanned_ids [] = refl
scanned_ids (r ∷ rows) = ap (◌∷◌ r.id) (scanned_ids rows)

length-map : {A B : Type 0} (f : A → B) (xs : List A) → length (map f xs) ≡ length xs
length-map f [] = refl
length-map f (x ∷ xs) = ap (λ n. suc n) (length-map f xs)

contains-reverse : (xs : List Bytes) (k : Bytes) → contains (reverse xs) k ≡ contains xs k
unfolding contains
contains-reverse [] k = refl
contains-reverse (x ∷ xs) k =
    rw (reverse-cons, contains-append) (ground (arith, contains-reverse xs k))

newest-reverse :
    (count : ℤ) (rows : List Row)
    → newest count rows ≡ reverse (drop (left count (length (row_ids rows))) (row_ids rows))
newest-reverse count rows =
    map-reverse (λ (a : AppliedMigration). a.id)
      (drop (left count (length (map scan_row rows))) (map scan_row rows))
    ∙ ap reverse (
        map-drop (λ a. a.id) (left count (length (map scan_row rows))) (map scan_row rows)
        ∙ ap (λ xs. drop (left count (length (map scan_row rows))) xs) (scanned_ids rows)
        ∙ ap (λ n. drop (left count n) (row_ids rows))
            (length-map scan_row rows ∙ sym (length-map (λ (r : Row). r.id) rows)))

IsCount-left :
    (count : ℤ) (ids : List Bytes)
    → IsCount count (take (left count (length ids)) ids) (drop (left count (length ids)) ids)
IsCount-left (negsuc n) ids = rw (all_left (length ids)) refl
  where
    all_left : (n : ℕ) → n - n ≡ 0
    all_left n = omega arith
IsCount-left (pos n) ids = elim (Bool-cases (n == 0 || ltb (length ids) n)) [
  | inl all ↦ rw all (
      inr (
        ap (λ k. take k ids) (none_left (length ids)),
        short n (length (drop (length ids - length ids) ids))
            (length-drop (length ids - length ids) ids) all,
      ))
  | inr some_left ↦
      rw some_left
        (inl (ground (arith, some_left), enough n (length-drop (length ids - n) ids) some_left))
]
  where
    none_left : (n : ℕ) → n - n ≡ 0
    none_left n = omega arith

    short :
        (n d : ℕ)
        → d ≡ length ids - (length ids - length ids)
        → (n == 0 || ltb (length ids) n) ≡ true
        → (n ≡ 0) ⊎ (d < n)
    short n d same h = ground (arith, same, h)

    enough :
        (n : ℕ) {d : ℕ}
        → d ≡ length ids - (length ids - n)
        → (n == 0 || ltb (length ids) n) ≡ false
        → d ≡ n
    enough n same h = ground (arith, same, h)

IsRolledBack-of :
    (count : ℤ) (l₀ : Option (List Row)) (r : RunResult × Option Error) (l : Option (List Row))
    → IsTakenOff count l₀ r l
    → IsRolledBack count l₀ r l
IsRolledBack-of count l₀ r l h =
    let ids = row_ids (rows_of l₀) in
    let same = newest-reverse count (rows_of l₀) in
    record {
      older = take (left count (length ids)) ids;
      newer = drop (left count (length ids)) ids;
      table = sym (take-append-drop (left count (length ids)) ids);
      counted = IsCount-left count ids;
      progress = rw same at h.progress;
      ids = λ e k.
          h.ids e k
          ∙ ap (λ ks. is_recorded l₀ k && not (contains ks k)) same
          ∙ ap (λ b. is_recorded l₀ k && not b) (contains-reverse _ k);
    }

migration_ids-of_record :
    (applied : List AppliedMigration)
    → migration_ids (map of_record applied) ≡ map (λ a. a.id) applied
migration_ids-of_record [] = refl
migration_ids-of_record (a ∷ applied) = ap (◌∷◌ a.id) (migration_ids-of_record applied)

newest-nil : (count : ℤ) (rows : List Row) → [] ≡ map scan_row rows → newest count rows ≡ []
newest-nil count rows same = rw (sym same) (ap (λ a. map (λ x. x.id) (reverse a)) (drop-nil _))

module _ {S : Type 0} (sv : Server S) (u : Unicode) (count : ℤ) (db : Db S) where
  abbrev RollbackGoal : Goal S RunResult
  RollbackGoal r s l = IsTakenOff count db.ledger r l

  stopped : (e : Error) (l : Option (List Row)) → IsTakenOff count db.ledger (no_result, some e) l
  stopped e l = record { progress = Progress-none _ e; ids = λ h. cc }

  abbrev taken : List AppliedMigration → List Migration
  taken applied = map of_record (reverse (candidates count applied))

  was_recorded :
      (d : Db S)
      → d.ledger ≡ some (rows_of db.ledger)
      → (k : Bytes) → is_recorded d.ledger k ≡ is_recorded db.ledger k
  was_recorded d there k = ap (λ l. is_recorded l k) there ∙ is_recorded-rows_of db.ledger k

  looped :
      (applied : List AppliedMigration) (d : Db S)
      → applied ≡ map scan_row (rows_of db.ledger)
      → d.ledger ≡ some (rows_of db.ledger)
      → Ends RollbackGoal (rolled_back_result (rollback_loop sv u (taken applied)) d)
  looped applied d same there =
      let h : RolledBack (taken applied) d.ledger (rollback_loop sv u (taken applied) d).0
          (rollback_loop sv u (taken applied) d).1.ledger =
        rollback_loop_lem sv u (taken applied) d in
      let ids : migration_ids (taken applied) ≡ newest count (rows_of db.ledger) =
        migration_ids-of_record (reverse (candidates count applied))
        ∙ ap (λ a. map (λ x. x.id) (reverse (candidates count a))) same in
      record {
        progress = rw ids at h.progress;
        ids = λ e k.
            h.ids e k
            ∙ ap (λ b. b && not (contains (migration_ids (taken applied)) k))
                (was_recorded d there k)
            ∙ ap (λ js. is_recorded db.ledger k && not (contains js k)) ids;
      }

  of_applied :
      (applied : List AppliedMigration) (d : Db S)
      → applied ≡ map scan_row (rows_of db.ledger)
      → d.ledger ≡ some (rows_of db.ledger)
      → Ends RollbackGoal (rollback_of_applied sv u count applied d)
  of_applied [] d same there = record {
    progress =
        rw (newest-nil count (rows_of db.ledger) same)
          (record { rest = []; splits = refl; complete = λ h. refl });
    ids = λ e k.
        rw (newest-nil count (rows_of db.ledger) same)
          (unfold contains in ground (arith, was_recorded d there k));
  }
  of_applied (a ∷ applied) d same there =
      run_after-Ends RollbackGoal no_result
        (wrapping ensuring
          (ensure_reversible sv (map (λ r. r.id) (candidates count (a ∷ applied)))))
        _
        (Triple-mono {E = λ _ s l. (s ≡ d.schema) × (l ≡ d.ledger)} _
          (Triple-wrapping _ _ (ensure_reversible-Triple d.schema d.ledger sv _)) (λ x s l h. h.0.1)
          (λ e s l h. tt))
        (λ x d' h. looped (a ∷ applied) d' same (h ∙ there)) (λ e s l h. stopped e l) d (refl, refl)

  module _ {L : Type 0} (lk : Locker L) where
    rollback-IsTakenOff :
        (l : L)
        → IsTakenOff count db.ledger
            (rollback sv u lk count l db).0
            (rollback sv u lk count l db).2.ledger
    unfolding rollback rollback_locked
    rollback-IsTakenOff l =
        with_lock-Ends RollbackGoal lk no_result (rollback_locked sv u count) l db
          (run_after-Ends RollbackGoal no_result
            (do _ ← ready sv; wrapping get_applied (get_applied_migrations sv))
            (rollback_of_applied sv u count) (ready_rows-Triple db.schema db.ledger sv)
            (λ applied d h. of_applied applied d h.1 h.0.1) (λ e s l h. stopped e l) db
            (refl, refl))
          (λ e. stopped _ db.ledger)

    -- `Rollback` goes through the last `count` records of the table, or through all where `count` is
    -- zero, negative or more than there are, from the last one on. It has rolled back a beginning
    -- of these; without an error all of these, and no other ID has become recorded or unrecorded.
    pub rollback_newest :
        (l : L)
        → IsRolledBack count db.ledger
            (rollback sv u lk count l db).0
            (rollback sv u lk count l db).2.ledger
    rollback_newest l = IsRolledBack-of count db.ledger _ _ (rollback-IsTakenOff l)
