-- ===== src/Tunnels/Hosts/Histories.antt =====
-- rctunnel-panel/rctunnel_panel/api/tunnels.py: the host names of the tunnels after any number of
-- requests.
use rc_tunnel.Settings.{Settings}
