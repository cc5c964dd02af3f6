-- ===== src/Manager.antt =====
-- rctunnel-panel/rctunnel_panel/control/manager.py and bus.py: the connected agents, each with the
-- newest connection, and the desired configuration that is pushed to them. A connection is a
-- number, which stands for the identity of its send function.
pub mod Presence
use rc_tunnel.Base.{
  ℕ, Bool, true, false, Option, none, some, List, [], ◌∷◌, select, ◌==◌, both_eq, Text,
  if◌then◌else◌,
}
use rc_tunnel.Base.Dict.{get, put, pop, number_key}
use rc_tunnel.Models.{
  Panel, Agent, Node, Team, Tunnel, AgentStatus, online, offline, get_agent, get_node, get_team,
  set_agent,
}
use rc_tunnel.Protocol.{ConfigPayload, config_payload}
use rc_tunnel.Settings.{Settings}

-- the tables and the manager's dictionary
pub record Plane : Type 0 where
  pub panel : Panel
  pub conns : List (ℕ × ℕ)

-- `_set_status`, which touches by default
unfoldable pub set_status : ℕ → AgentStatus → ℕ → Panel → Panel
set_status id status now p =
    set_agent p id (λ a. record a { status = status; last_seen = some now })

unfoldable pub register : ℕ → ℕ → ℕ → Plane → Plane
register id conn now w = record {
  panel = set_status id online now w.panel;
  conns = put id conn w.conns;
}

-- only the connection that is registered may unregister
unfoldable pub unregister : ℕ → ℕ → ℕ → Plane → Plane
unregister id conn now w =
    if both_eq (get id w.conns) (some conn)
    then record { panel = set_status id offline now w.panel; conns = pop id w.conns }
    else w

abbrev is_given : Option ℕ → Bool
is_given none = false
is_given (some conn) = true

unfoldable pub is_online : ℕ → Plane → Bool
is_online id w = is_given (get id w.conns)

unfoldable pub touch : ℕ → ℕ → Plane → Plane
touch id now w = record w { panel = set_status id online now w.panel }

-- a suspended team's agents have no tunnels
abbrev pub served_tunnels : Option Team → List Tunnel → List Tunnel
served_tunnels none ts = ts
served_tunnels (some team) ts = if team.suspended then [] else ts

abbrev pub label_of : Option Team → Option Text
label_of none = none
label_of (some team) = team.subdomain_label

module _ (hmac : Text → Text → Text) where
  unfoldable pub config_for : Settings → ℕ → Panel → Agent → Option Node → Option ConfigPayload
  config_for s now p agent none = none
  config_for s now p agent (some node) =
      let team = get_team p agent.team_id in
      some (
        config_payload hmac agent node
          (served_tunnels team (select (λ t. t.agent_id == agent.id) p.tunnels)) (label_of team)
          s.rctd_workconn_port s.grant_secret now)

  -- the foreign key provides `agent.node`
  unfoldable pub build_config : Settings → ℕ → ℕ → Panel → Option ConfigPayload
  unfolding config_for
  build_config s now id p = elim (get_agent p id) [
    | none ↦ none
    | some agent ↦ config_for s now p agent (get_node p agent.node_id)
  ]

  -- the connection that is written to, and what is sent
  unfoldable pub push : Settings → ℕ → ℕ → Plane → Option (ℕ × ConfigPayload)
  push s now id w = elim (get id w.conns) [
    | none ↦ none
    | some conn ↦ elim (build_config s now id w.panel) [ none ↦ none | some cfg ↦ some (conn, cfg) ]
  ]
