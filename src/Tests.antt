-- ===== src/Tests.antt =====
-- Runs of the model on small inputs, and the instances of the theorems.
mod Scripts
mod Fixtures
mod Services
mod Executions
mod Plans
mod Parsing
mod Sources
mod Locks
mod Calls
mod NewFiles
mod ConnStrings
mod Commands
