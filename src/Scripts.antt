-- ===== src/Scripts.antt =====
-- rctunnel-panel/scripts: the scripts that an operator runs on the database.
pub mod Recovery
pub mod Copy
pub mod Copied
