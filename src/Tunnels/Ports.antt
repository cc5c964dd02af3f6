-- ===== src/Tunnels/Ports.antt =====
-- `_allocate_port`.
use rc_tunnel.Base.{
  ℕ, zero, suc, ◌+◌, ◌-◌, Bool, false, not, ◌&&◌, Option, none, some, List, [], ◌∷◌, member, leb,
  ◌==◌, Result, ok, raise, reject_if, ◌>>◌, port_out_of_range, port_taken, no_free_ports,
  if◌then◌else◌,
}
use rc_tunnel.Settings.{Settings}
use rc_tunnel.Models.{Panel, Tunnel, get_agent}
use rc_tunnel.Tunnels.Domains.{is_excluded}

-- the agent of the tunnel is on the node
unfoldable pub on_node : Panel → ℕ → Tunnel → Bool
on_node p node_id t = elim (get_agent p t.agent_id) [ none ↦ false | some a ↦ a.node_id == node_id ]

-- one row of `used`: NULL ports, other nodes and the excluded tunnel are left out
unfoldable pub counts_as_used : Panel → ℕ → Option ℕ → Tunnel → Bool
unfolding on_node
counts_as_used p node_id exclude t = on_node p node_id t && not (is_excluded exclude t)

unfoldable pub used_in : Panel → ℕ → Option ℕ → List Tunnel → List ℕ
used_in p node_id exclude [] = []
used_in p node_id exclude (t ∷ ts) =
    let rest = used_in p node_id exclude ts in
    elim t.remote_port [
      | none ↦ rest
      | some port ↦ if counts_as_used p node_id exclude t then port ∷ rest else rest
    ]

unfoldable pub used_ports : Panel → ℕ → Option ℕ → List ℕ
unfolding used_in
used_ports p node_id exclude = used_in p node_id exclude p.tunnels

-- `for p in range(first, first + count)`: the first that is not used
unfoldable pub first_free : List ℕ → ℕ → ℕ → Option ℕ
first_free used port zero = none
first_free used port (suc count) =
    let rest = first_free used (port + 1) count in if member port used then rest else some port

unfoldable pub or_conflict : Option ℕ → Result ℕ
or_conflict none = raise 409 no_free_ports
or_conflict (some port) = ok port

unfoldable pub allocate_port : Settings → Panel → ℕ → Option ℕ → Option ℕ → Result ℕ
unfolding or_conflict
allocate_port s p node_id (some port) exclude = do
  reject_if (not (leb s.port_allow_min port && leb port s.port_allow_max)) 422
      (port_out_of_range port)
  reject_if (member port (used_ports p node_id exclude)) 409 (port_taken port)
  ok port
allocate_port s p node_id none exclude =
    or_conflict (
      first_free (used_ports p node_id exclude) s.tcp_port_min
        (s.tcp_port_max + 1 - s.tcp_port_min))
