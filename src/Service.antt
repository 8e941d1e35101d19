-- ===== src/Service.antt =====
-- internal/migrator/service.go: the methods of `Service`, in the modules below.
--
-- The source is the result of its `GetMigrations`, the lock an interface, and the executor the one
-- of the package. A method's body runs on the database as it is once the lock is taken. Log lines
-- are not modelled.
pub mod Guards
pub mod Operations
pub mod Runs
pub mod Loading
pub mod Recorded
pub mod Refusals
pub mod Removed
pub mod Forgetting
pub mod Recording
pub mod Baselining
pub mod Through
pub mod Preview
