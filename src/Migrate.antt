-- ===== src/Migrate.antt =====
-- migrate: which migrations are applied, and the runs that apply them and roll them back.
pub mod Migration
pub mod Store
pub mod Migrator
pub mod Runs
pub mod Rounds
pub mod Loop
pub mod Locks
pub mod Rows
pub mod Status
pub mod Again
pub mod Tests
