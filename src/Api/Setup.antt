-- ===== src/Api/Setup.antt =====
-- What `newService` sets up, and what a call makes of it.
use pg_migrate.Prelude.{arith, ℕ, ◌≡◌, refl, false, none, some, List}
use pg_migrate.Result.{Result, ok, err, ◌>>=◌}
use pg_migrate.Text.{Bytes, equal_iff}
use pg_migrate.Table.{resolve, NameError}
use pg_migrate.Source.Files.{FileSystem}
use pg_migrate.Lock.{new_postgres_from_db}
use pg_migrate.Lock.Tracked.{IsFree}
use pg_migrate.Lock.Tracking.{IsTracked}
use pg_migrate.Api.{
  Configure, Config, ApiError, SqlDb, MigrateService, new_service, apply_options, zero_config,
  check_timeout, check_table, open_table, other_tables,
}
use pg_migrate.Api.Calls.{Outcome, with_service}

-- The options name the bookkeeping table that the handle shows.
abbrev pub Names : {S : Type 0} → SqlDb S → List Configure → Type 0
Names handle opts = resolve (apply_options opts zero_config).table ≡ ok handle.table

-- A new service has the handle's pool, the files and options that were given, and a lock that is not
-- held. It has the handle's database as it is if the options name the table that the handle shows.
pub record IsSetUp {S : Type 0} (handle : SqlDb S) (files : FileSystem) (opts : List Configure)
    (svc : MigrateService S) : Type 0 where
  pub db : Names handle opts → svc.db ≡ handle.db
  pub table : Names handle opts → svc.table ≡ handle.table
  pub named : resolve (apply_options opts zero_config).table ≡ ok svc.table
  pub rest : svc.others ≡ other_tables handle
  pub pool : svc.lock.pool ≡ handle.pool
  pub fsys : svc.fsys ≡ files
  pub conn : svc.lock.lock_conn ≡ none
  pub config : svc.config ≡ apply_options opts zero_config
  pub flag : svc.lock.is_lock_acquired ≡ false

abbrev SetUp :
    {S : Type 0}
    → SqlDb S
    → FileSystem
    → List Configure
    → Result ApiError (MigrateService S)
    → Type 0
SetUp handle files opts (ok svc) = IsSetUp handle files opts svc
SetUp handle files opts (err e) = Unit {0}

module _ {S : Type 0} (handle : SqlDb S) (files : FileSystem) (opts : List Configure) where
  bind-SetUp :
      {A : Type 0} (m : Result ApiError A) (f : A → Result ApiError (MigrateService S))
      → ((a : A) → SetUp handle files opts (f a))
      → SetUp handle files opts (m >>= f)
  bind-SetUp (ok a) f h = h a
  bind-SetUp (err e) f h = tt

  resolved-SetUp :
      (cfg : Config) (m : Result ApiError ℕ) (f : Config × ℕ → Result ApiError (MigrateService S))
      → ((n : ℕ) → SetUp handle files opts (f (cfg, n)))
      → SetUp handle files opts ((m >>= λ n. ok (cfg, n)) >>= f)
  resolved-SetUp cfg (ok n) f h = h n
  resolved-SetUp cfg (err e) f h = tt

  named-SetUp :
      (r : Result NameError Bytes) (f : Bytes → Result ApiError (MigrateService S))
      → ((t : Bytes) → r ≡ ok t → SetUp handle files opts (f t))
      → SetUp handle files opts (check_table r >>= f)
  named-SetUp (ok t) f h = h t refl
  named-SetUp (err e) f h = tt

  opened :
      (t : Bytes)
      → resolve (apply_options opts zero_config).table ≡ ok t
      → Names handle opts
      → t ≡ handle.table
  opened t e names = cc

  open_table-same : (t : Bytes) → t ≡ handle.table → open_table handle t ≡ handle.db
  open_table-same t e = ground (arith, e, equal_iff handle.table handle.table)

  new_service-SetUp : SetUp handle files opts (new_service (some handle) (some files) opts)
  unfolding new_service new_postgres_from_db
  new_service-SetUp =
      let cfg = apply_options opts zero_config in
      resolved-SetUp cfg (check_timeout cfg.lock_timeout) _ λ timeout.
        named-SetUp (resolve cfg.table) _ λ table named. record {
          db = λ names. open_table-same table (opened table named names);
          table = λ names. opened table named names;
          named = named;
          rest = refl;
          pool = refl;
          fsys = refl;
          conn = refl;
          config = refl;
          flag = refl;
        }

  -- A statement about a call that holds if its service is set up, and if it is not.
  pub with_service-elim :
      {R : Type 0} (P : Outcome S R → Type 0) (f : MigrateService S → Outcome S R)
      → ((svc : MigrateService S) → IsSetUp handle files opts svc → P (f svc))
      → ((e : ApiError) → P ((none, some e), some handle))
      → P (with_service (some handle) (new_service (some handle) (some files) opts) f)
  with_service-elim P f runs fails =
      go (new_service (some handle) (some files) opts) new_service-SetUp
    where
      go :
          (r : Result ApiError (MigrateService S))
          → SetUp handle files opts r
          → P (with_service (some handle) r f)
      go (ok svc) h = runs svc h
      go (err e) h = fails e

  pub IsSetUp-IsTracked :
      (svc : MigrateService S)
      → IsFree handle.pool
      → IsSetUp handle files opts svc
      → IsTracked svc.lock
  IsSetUp-IsTracked svc free h = record {
    flag = rw (h.conn, h.flag) refl;
    conn = rw h.conn (rw h.pool free);
  }
