-- ===== src/Api/Unasked.antt =====
-- What `Reconcile` and `Up` of migrate.go list as rolled back.
use pg_migrate.Prelude.{
  ◌≡◌, ◌⊎◌, inl, inr, refl, ap, sym, ◌∙◌, Bool, true, false, not, ◌&&◌, Option, none, some, List,
  [], ◌∷◌, ◌++◌, is_nil, if◌then◌else◌,
}
use pg_migrate.Error.{Error}
use pg_migrate.Text.{Bytes, contains}
use pg_migrate.Text.Unicode.{Unicode}
use pg_migrate.Migration.{Migration, migration_ids}
use pg_migrate.Planner.{MigrationPlan, build_plan}
use pg_migrate.Database.{Db, Server}
use pg_migrate.Database.Calls.{Run, run_after}
use pg_migrate.Source.Files.{FileSystem}
use pg_migrate.Executor.Outcome.{Executed, execute_plan_progress}
use pg_migrate.Service.Guards.{RunOptions, Source, blocked_by}
use pg_migrate.Service.Operations.{
  Locker, RunResult, no_result, with_lock, reconcile, reconcile_locked, reconcile_with,
  reconcile_unless, up, up_locked, up_with, loaded, record_execution,
}
use pg_migrate.Lock.{Network, Lock}
use pg_migrate.Lock.Held.{postgres_locker}
use pg_migrate.Api.{
  ApiResult, Config, Configure, SqlDb, MigrateService, files_of, run_options, to_result,
  apply_options, zero_config,
}
use pg_migrate.Api.Calls.{Outcome, ended, migrate_reconcile, migrate_up}
use pg_migrate.Api.Setup.{Names, with_service-elim}
use pg_migrate.Api.Foretold.{result_ids, ledger_of}
use pg_migrate.Database.{Row}
use pg_migrate.Executor.Ids.{is_recorded}
use pg_migrate.Executor.Plan.{execute_plan}
use pg_migrate.Service.Runs.{Goal, Ends, run_after-Ends, with_lock-Ends}
use pg_migrate.Service.Loading.{rows_of, loaded-Triple}
use pg_migrate.Service.Recorded.{is_recorded-rows_of}

nothing_before : (done rest : List Bytes) → [] ≡ done ++ rest → done ≡ []
nothing_before [] rest h = refl
nothing_before (d ∷ done) rest h = cc

abbrev is_blocking : Option Error → Bool
is_blocking none = false
is_blocking (some e) = true

-- A plan with something to roll back is blocked unless rollbacks are allowed.
extras_block :
    {m : Migration} {ms : List Migration} (plan : MigrationPlan) (from_files : List Migration)
    (opts : RunOptions)
    → plan.to_rollback ≡ m ∷ ms
    → opts.allow_rollback ≡ false
    → is_blocking (blocked_by plan from_files opts) ≡ true
unfolding blocked_by
extras_block plan from_files opts h strict =
    cases (is_nil from_files && not (is_nil plan.to_rollback) && not opts.allow_empty_source)
      (is_nil plan.to_rollback) opts.allow_rollback _ _ _ (ap is_nil h) strict
  where
    cases :
        (empty none_extra allowed : Bool) (a b : Error) (rest : Option Error)
        → none_extra ≡ false
        → allowed ≡ false
        → is_blocking
            (if empty then some a else if not none_extra && not allowed then some b else rest)
          ≡ true
    cases true none_extra allowed a b rest p q = refl
    cases false true allowed a b rest p q = cc
    cases false false true a b rest p q = cc
    cases false false false a b rest p q = refl

-- Nothing is listed as rolled back, and what was recorded in `l₀` is recorded in `l`.
abbrev Keeps : Option (List Row) → List Bytes → Option (List Row) → Type 0
Keeps l₀ rolled_back l =
    (rolled_back ≡ []) × ((k : Bytes) → is_recorded l₀ k ≡ true → is_recorded l k ≡ true)

none_blocks : {A : Type 0} (o : Option Error) → o ≡ none → is_blocking o ≡ true → A
none_blocks none e k = cc
none_blocks (some x) e k = cc

module _ {S : Type 0} (sv : Server S) (u : Unicode) (db : Db S) where
  abbrev KeepsGoal : Goal S RunResult
  KeepsGoal r s l = Keeps db.ledger (migration_ids r.0.rolled_back) l

  -- An executed plan that rolls nothing back.
  executed :
      (plan : MigrationPlan) (from_files : List Migration) (d : Db S)
      → plan.to_rollback ≡ []
      → ((k : Bytes) → is_recorded db.ledger k ≡ true → is_recorded d.ledger k ≡ true)
      → let (r, d') = execute_plan sv u plan from_files d in
        Keeps db.ledger (migration_ids r.0.rolled_back) d'.ledger
  executed plan from_files d none_extra there =
      let h : Executed plan d.ledger (execute_plan sv u plan from_files d).0
          (execute_plan sv u plan from_files d).1.ledger =
        execute_plan_progress sv u plan from_files d in
      (
        nothing_before _ h.back.rest (ap migration_ids (sym none_extra) ∙ h.back.splits),
        λ k recorded. h.kept k (outside k) (there k recorded),
      )
    where
      outside : (k : Bytes) → contains (migration_ids plan.to_rollback) k ≡ false
      outside k = rw none_extra (unfold contains in refl)

  up_with-Keeps :
      (both : List Migration × List Migration) (d : Db S)
      → ((k : Bytes) → is_recorded db.ledger k ≡ true → is_recorded d.ledger k ≡ true)
      → Ends KeepsGoal (up_with sv u both d)
  unfolding record_execution
  up_with-Keeps (from_files, from_db) d there =
      executed
        (record {
          to_rollback = [];
          to_apply = (build_plan from_files from_db false).to_apply;
          interleaved = [];
        })
        from_files d refl there

  reconcile_unless-Keeps :
      (plan : MigrationPlan) (from_files : List Migration) (opts : RunOptions) (d : Db S)
      → opts.allow_rollback ≡ false
      → ((k : Bytes) → is_recorded db.ledger k ≡ true → is_recorded d.ledger k ≡ true)
      → Ends KeepsGoal (reconcile_unless sv u plan from_files (blocked_by plan from_files opts) d)
  unfolding record_execution
  reconcile_unless-Keeps plan from_files opts d strict there =
      go (blocked_by plan from_files opts) plan.to_rollback refl refl
    where
      go :
          (blocked : Option Error) (extras : List Migration)
          → blocked_by plan from_files opts ≡ blocked
          → plan.to_rollback ≡ extras
          → Ends KeepsGoal (reconcile_unless sv u plan from_files blocked d)
      go (some e) extras b h = (refl, there)
      go none [] b h = executed plan from_files d h there
      go none (m ∷ ms) b h =
          none_blocks (blocked_by plan from_files opts) b
            (extras_block plan from_files opts h strict)

  as_was :
      (l : Option (List Row))
      → l ≡ some (rows_of db.ledger)
      → (k : Bytes) → is_recorded db.ledger k ≡ true
      → is_recorded l k ≡ true
  as_was l same k there = ap (λ l. is_recorded l k) same ∙ is_recorded-rows_of db.ledger k ∙ there

  -- What comes before a plan is made, and the lock, change no record.
  started-Keeps :
      (lk : Locker Lock) (source : Source) (l : Lock)
      (f : List Migration × List Migration → Run S RunResult)
      → ((both : List Migration × List Migration) (d : Db S)
          → ((k : Bytes) → is_recorded db.ledger k ≡ true → is_recorded d.ledger k ≡ true)
          → Ends KeepsGoal (f both d))
      → let x = with_lock lk no_result (run_after no_result (loaded sv source) f) l db in
        Ends KeepsGoal (x.0, x.2)
  started-Keeps lk source l f h =
      with_lock-Ends KeepsGoal lk no_result (run_after no_result (loaded sv source) f) l db
        (run_after-Ends KeepsGoal no_result (loaded sv source) f
          (loaded-Triple db.schema db.ledger sv source)
          (λ both d k. h both d (as_was d.ledger k.is_ready.1)) (λ e s l k. (refl, at_most l k.1))
          db (refl, refl))
        (λ e. (refl, λ k there. there))
    where
      at_most :
          (l : Option (List Row))
          → l ≡ db.ledger ⊎ l ≡ some (rows_of db.ledger)
          → (k : Bytes) → is_recorded db.ledger k ≡ true
          → is_recorded l k ≡ true
      at_most l (inl same) k there = ap (λ l. is_recorded l k) same ∙ there
      at_most l (inr same) k there = as_was l same k there

  reconcile-Keeps :
      (lk : Locker Lock) (source : Source) (opts : RunOptions) (l : Lock)
      → opts.allow_rollback ≡ false
      → let x = reconcile sv u lk source opts l db in Ends KeepsGoal (x.0, x.2)
  unfolding reconcile reconcile_locked
  reconcile-Keeps lk source opts l strict =
      started-Keeps lk source l (reconcile_with sv u opts) λ both d there.
        reconcile_unless-Keeps (build_plan both.0 both.1 true) both.0 opts d strict there

  up-Keeps :
      (lk : Locker Lock) (source : Source) (l : Lock)
      → let x = up sv u lk source l db in Ends KeepsGoal (x.0, x.2)
  unfolding up up_locked
  up-Keeps lk source l = started-Keeps lk source l (up_with sv u) up_with-Keeps

-- A call rolls nothing back: it lists nothing as rolled back, and all that was recorded in `db` still is.
abbrev pub KeepsRecords : {S : Type 0} → Db S → Outcome S ApiResult → Type 0
KeepsRecords db x = Keeps db.ledger (result_ids (λ r. r.rolled_back) x.0.0) (ledger_of x.1)

ended-KeepsRecords :
    {S : Type 0} (svc : MigrateService S) (db : Db S) (x : (RunResult × Option Error) × Lock × Db S)
    → Keeps db.ledger (migration_ids x.0.0.rolled_back) x.2.ledger
    → KeepsRecords db (ended svc to_result x)
unfolding to_result
ended-KeepsRecords svc db x h = h

-- The options name the bookkeeping table that the handle shows. `Up` never rolls a migration back, and `Reconcile` does so only with `WithRollback`: otherwise, whatever
-- files, database, network and server are like, and also when there is an error, each ID that was
-- recorded is recorded still, and a result that is returned lists nothing as rolled back.
pub unasked_rollback :
    {S : Type 0} (before after : Network) (sv : Server S) (u : Unicode) (handle : SqlDb S)
    (files : FileSystem) (opts others : List Configure)
    → Names handle opts
    → Names handle others
    → (apply_options opts zero_config).allow_rollback ≡ false
    → KeepsRecords handle.db (migrate_reconcile before after sv u (some handle) (some files) opts)
      × KeepsRecords handle.db (migrate_up before after sv u (some handle) (some files) others)
unfolding migrate_reconcile migrate_up run_options
unasked_rollback before after sv u handle files opts others names names' strict =
    let lk = postgres_locker before after in
    (
      with_service-elim handle files opts (KeepsRecords handle.db) _
          (λ svc h. rw (h.db names) (
            ended-KeepsRecords svc handle.db
              (reconcile sv u lk (files_of u svc.fsys) (run_options svc.config) svc.lock handle.db)
              (reconcile-Keeps sv u handle.db lk (files_of u svc.fsys) (run_options svc.config)
                svc.lock (ap (λ (c : Config). c.allow_rollback) h.config ∙ strict))))
          (λ e. (refl, λ k there. there)),
      with_service-elim handle files others (KeepsRecords handle.db) _
          (λ svc h. rw (h.db names') (
            ended-KeepsRecords svc handle.db (up sv u lk (files_of u svc.fsys) svc.lock handle.db)
              (up-Keeps sv u handle.db lk (files_of u svc.fsys) svc.lock)))
          (λ e. (refl, λ k there. there)),
    )
