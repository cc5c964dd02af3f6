-- ===== src/Examples.antt =====
-- The theorems at concrete inputs: one team with one agent, two tunnels and an administrator.
pub mod Data
pub mod Grants
pub mod Tunnels
pub mod Certificates
pub mod Accounts
pub mod Supervisor
pub mod Services
pub mod Link
pub mod Release
pub mod Operations
pub mod Logs
