-- ===== src/Supervisor.antt =====
-- rctunnel-panel/agent: the supervisor that runs beside an agent's engine client (rctc). Files are
-- dictionaries from names to contents, and a download, a hash and the check that code compiles are
-- parameters.
pub mod Render
pub mod Bare
pub mod Granted
pub mod Ota
pub mod Verified
pub mod Offers
pub mod Names
pub mod Backups
pub mod Boot
pub mod Rollback
pub mod Restored
pub mod Undone
pub mod Engine
pub mod Applied
pub mod Loaded
pub mod Link
pub mod Retries
pub mod Renewals
