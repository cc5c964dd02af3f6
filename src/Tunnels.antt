-- ===== src/Tunnels.antt =====
-- rctunnel-panel/rctunnel_panel/api/tunnels.py: the checks on a request, one module for each
-- kind, the handlers, and what the tables satisfy after them.
pub mod Labels
pub mod Domains
pub mod Ports
pub mod Handlers
pub mod Claims
pub mod Hosts
pub mod Created
pub mod Updated
pub mod Allocation
pub mod Exclusive
