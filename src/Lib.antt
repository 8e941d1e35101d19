-- ===== src/Lib.antt =====
-- pg-migrate: migrations of a PostgreSQL schema, each a pair of SQL files, with a bookkeeping table
-- in the database that records which of them are applied.
--
-- The program reads the files (internal/source), compares them with the table (internal/migrator/
-- planner.go), and rolls back or applies what differs (custom_executor.go there), under an advisory
-- lock (internal/db). service.go there holds the operations Up, Reconcile, Rollback, Forget and
-- Baseline, and migrate.go and cmd/pg-migrate offer them as a package and as a command.
--
-- Files. Text models strings as lists of bytes, with what the code uses of packages strings and utf8.
-- Migration, Planner, Directives and Script model types.go, planner.go, directives.go and the
-- statement splitter of custom_executor.go. Error models the errors as values: sentinels, the places
-- that wrap, and errors.Is. Database models the server: a schema of any type, the bookkeeping table and
-- the SQL statements on it. Executor models the methods of CustomExecutor. Service models service.go.
-- Table models table.go, and Source models fs.go and parser.go of internal/source. Lock models the
-- advisory lock of internal/db/postgres.go with internal/sqlconn, and Dsn the connection string there.
-- Api models migrate.go: Reconcile is migrate_reconcile there, and so on, since the service has the
-- short names. Cli and New model cmd/pg-migrate: config.go, main.go, validate.go and version.go in
-- Cli, new.go in New.
-- The children of a module hold its further definitions and its theorems. A function of the source has
-- the same name here, in snake case: applyWithoutTransaction is apply_without_transaction.
--
-- State. Every operation maps a database to a result and a database. A call of the driver has a
-- number, and the server, a parameter, says of each number whether the call is served, is refused, or
-- has its effect while its answer is lost; what a script does to the schema is its parameter too. So a
-- theorem about any server covers every failure of every call. A transaction restores schema and
-- table when its body or its commit fails. Scripts are taken to leave the bookkeeping table alone, and
-- no other session is taken to write it while the lock is held. The lock and the file source are
-- parameters of the service; Lock.Held gives it the lock of Postgres, and Api the files. The file
-- system is a parameter of the file source. A database handle in Api shows the bookkeeping table of one
-- name, and has the rows of the tables of other names besides; new_service opens the table that the
-- options name.
--
-- The lock's state is that of Postgres, with the pool of its process: the idle sessions, the next new
-- session, and the sessions that the server has granted the lock. Each call of AcquireLock and
-- ReleaseLock is given the network as it is then: how each call of the driver is answered, which
-- connection the pool hands out, for how long other processes keep the lock, and which lock_timeout
-- the sessions begin with; set_config puts another in force. So the mutex of
-- Postgres is a call that is not interrupted by another. A session ends, and gives up its grants, when
-- its connection is destroyed. The lock's key is one, so grants of other keys are not in the state.
--
-- Loops are structural recursion on the lists or bytes that they walk. Only the search for a free time
-- stamp in New has fuel, one round more than the folder has entries, and New.Stamps shows that it is
-- enough if the clock's stamps differ from second to second. Where the
-- source moves its index by more than one, the scan has a count of bytes to skip. The limit of 65536
-- bytes for a line of bufio.Scanner is written out in Script.
--
-- Not modelled: contexts and deadlines (an expired one is a refused or lost call), logging and texts of
-- messages, the release of a pinned connection, panics, JSON output, the declaration of flags, and
-- internal/dbconn, which only opens the driver. Numbers of nanoseconds, counts and lock keys are
-- integers without bounds.
pub mod Api
pub mod Cli
pub mod Database
pub mod Directives
pub mod Dsn
pub mod Error
pub mod Executor
pub mod Lock
pub mod Migration
pub mod New
pub mod Planner
mod Prelude
pub mod Result
pub mod Script
pub mod Service
pub mod Source
pub mod Table
mod Tests
pub mod Text
