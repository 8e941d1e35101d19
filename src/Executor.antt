-- ===== src/Executor.antt =====
-- internal/migrator/custom_executor.go: the methods of `CustomExecutor`, in the modules below.
--
-- Contexts are not modelled: a call that a cancelled context ends is a call that fails. The
-- bookkeeping writes that are detached from the caller's context are calls like others.
pub mod Rows
pub mod Statements
pub mod Apply
pub mod Rollback
pub mod Plan
pub mod Ran
pub mod Pinned
pub mod Atomicity
pub mod Removal
pub mod Ids
pub mod Progress
pub mod Reversible
pub mod Outcome
pub mod Refusal
