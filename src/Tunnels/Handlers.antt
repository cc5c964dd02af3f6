-- ===== src/Tunnels/Handlers.antt =====
-- `_validate`, `_bump`, `_agent_or_404` and the endpoints. A handler gives the new state and the
-- tunnel; one that raises leaves the state as it was, since nothing was committed. The id and the
-- time of a new row are the database's.
use rc_tunnel.Base.{
  ℕ, ◌+◌, Bool, true, false, not, ◌&&◌, ◌||◌, Option, none, some, List, [], ◌∷◌, ◌++◌, length,
  select, any, leb, ◌==◌, Text, codes, text_eq, truthy, Result, ok, raise, reject_if, ◌>>=◌, ◌>>◌,
  needs_host, bad_health_check, agent_not_found, tunnel_not_found, tunnel_limit, tunnel_name_exists,
  integrity_error, if◌then◌else◌,
}
use rc_tunnel.Settings.{Settings}
use rc_tunnel.Models.{
  Panel, Team, User, Agent, Tunnel, get_agent, get_tunnel, get_team, set_agent, set_tunnel,
  is_domain_type, is_port_type, notify_agent,
}
use rc_tunnel.Deps.{check_team_access}
use rc_tunnel.Schemas.{Patch, unset, given, TunnelCreate, TunnelUpdate}
use rc_tunnel.Tunnels.Labels.{check_subdomain_labels, check_subdomain_depth}
use rc_tunnel.Tunnels.Domains.{check_custom_domains, check_subdomain_unique}
use rc_tunnel.Tunnels.Ports.{allocate_port}

-- `health_check_type and health_check_type not in ("tcp", "http")`
abbrev pub bad_health : Option Text → Bool
bad_health none = false
bad_health (some []) = false
bad_health (some (c ∷ s)) = not (text_eq (c ∷ s) (codes "tcp") || text_eq (c ∷ s) (codes "http"))

-- what is checked of a subdomain that is not empty
unfoldable pub check_subdomain : Settings → Option Text → Bool → Result (Unit {0})
check_subdomain s none team_has_label = ok tt
check_subdomain s (some []) team_has_label = ok tt
check_subdomain s (some (c ∷ sub)) team_has_label = do
  check_subdomain_labels (some (c ∷ sub))
  check_subdomain_depth s (c ∷ sub) team_has_label

unfoldable pub validate : Settings → TunnelCreate → Bool → Result (Unit {0})
validate s body team_has_label = do
  reject_if (is_domain_type body.type && not (truthy body.subdomain || truthy body.custom_domains))
      422 needs_host
  reject_if (bad_health body.opts.health_check_type) 422 bad_health_check
  check_subdomain s body.subdomain team_has_label

abbrev pub bump_row : Agent → Agent
bump_row a = record a { generation = a.generation + 1 }

-- the generation grows, and the agent is told
unfoldable pub bump : ℕ → Panel → Panel
bump id p = notify_agent (set_agent p id bump_row) id

unfoldable pub agent_or_404 : Panel → User → ℕ → Result Agent
agent_or_404 p u id = elim (get_agent p id) [
  | none ↦ raise 404 agent_not_found
  | some a ↦ do check_team_access a.team_id u; ok a
]

unfoldable pub list_tunnels : Panel → User → ℕ → Result (List Tunnel)
list_tunnels p u agent_id = do
  _ ← agent_or_404 p u agent_id
  ok (select (λ t. t.agent_id == agent_id) p.tunnels)

-- `team and team.subdomain_label`
abbrev pub has_label : Option Team → Bool
has_label none = false
has_label (some team) = truthy team.subdomain_label

-- the port of a new row
unfoldable pub choose_port : Settings → Panel → ℕ → TunnelCreate → Result (Option ℕ)
choose_port s p node_id body =
    if is_port_type body.type
    then (do port ← allocate_port s p node_id body.remote_port none; ok (some port))
    else ok body.remote_port

unfoldable pub new_tunnel : ℕ → ℕ → ℕ → TunnelCreate → Option ℕ → Tunnel
new_tunnel id now agent_id body port = record {
  id = id;
  agent_id = agent_id;
  name = body.name;
  type = body.type;
  local_ip = body.local_ip;
  local_port = body.local_port;
  remote_port = port;
  subdomain = body.subdomain;
  custom_domains = body.custom_domains;
  enabled = true;
  created_at = now;
  opts = body.opts;
  bytes_in = 0;
  bytes_out = 0;
  last_today_in = 0;
  last_today_out = 0;
}

-- the checks of `create_tunnel`, in order
unfoldable pub check_create : Settings → Panel → ℕ → Agent → TunnelCreate → Result (Unit {0})
check_create s p agent_id agent body = do
  validate s body (has_label (get_team p agent.team_id))
  reject_if (leb s.max_tunnels_per_agent (length (select (λ t. t.agent_id == agent_id) p.tunnels)))
      422 tunnel_limit
  reject_if (any (λ t. t.agent_id == agent_id && text_eq t.name body.name) p.tunnels) 409
      tunnel_name_exists
  check_subdomain_unique p body.subdomain agent.team_id none
  check_custom_domains s p body.custom_domains none

unfoldable pub create_tunnel :
    Settings → User → ℕ → TunnelCreate → ℕ → ℕ → Panel → Result (Panel × Tunnel)
create_tunnel s u agent_id body id now p = do
  agent ← agent_or_404 p u agent_id
  check_create s p agent_id agent body
  port ← choose_port s p agent.node_id body
  let row = new_tunnel id now agent_id body port
  ok (bump agent_id (record p { tunnels = p.tunnels ++ (row ∷ []) }), row)

abbrev pub patched : {A : Type 0} → Patch A → Option A → Option A
patched unset old = old
patched (given v) old = v

-- a column that may not be NULL: the flush fails
abbrev pub required : {A : Type 0} → Patch A → A → Result A
required unset old = ok old
required (given none) old = raise 500 integrity_error
required (given (some v)) old = ok v

-- the checks on `fields["subdomain"]`, if it is there
unfoldable pub check_new_subdomain : Settings → Panel → Agent → ℕ → Patch Text → Result (Unit {0})
check_new_subdomain s p agent id unset = ok tt
check_new_subdomain s p agent id (given sub) = do
  check_subdomain s sub (has_label (get_team p agent.team_id))
  check_subdomain_unique p sub agent.team_id (some id)

unfoldable pub new_port : Settings → Panel → ℕ → ℕ → Patch ℕ → Result (Patch ℕ)
new_port s p node_id id (given (some port)) = do
  port' ← allocate_port s p node_id (some port) (some id)
  ok (given (some port'))
new_port s p node_id id fields = ok fields

-- the `setattr` loop and the flush
unfoldable pub set_fields : TunnelUpdate → Patch ℕ → Tunnel → Result Tunnel
set_fields f port t = do
  enabled ← required f.enabled t.enabled
  local_ip ← required f.local_ip t.local_ip
  local_port ← required f.local_port t.local_port
  use_encryption ← required f.use_encryption t.use_encryption
  use_compression ← required f.use_compression t.use_compression
  ok (record t {
    enabled = enabled;
    local_ip = local_ip;
    local_port = local_port;
    remote_port = patched port t.remote_port;
    subdomain = patched f.subdomain t.subdomain;
    opts = record {
      use_encryption = use_encryption;
      use_compression = use_compression;
      bandwidth_limit = patched f.bandwidth_limit t.bandwidth_limit;
      health_check_type = patched f.health_check_type t.health_check_type;
      health_check_path = patched f.health_check_path t.health_check_path;
      http_user = patched f.http_user t.http_user;
      http_password = patched f.http_password t.http_password;
      host_header_rewrite = patched f.host_header_rewrite t.host_header_rewrite;
    };
  })

unfoldable pub or_404 : {A : Type 0} → Option A → Result A
or_404 none = raise 404 tunnel_not_found
or_404 (some a) = ok a

-- `tunnel.agent`, which the foreign key provides
unfoldable pub owner_of : Panel → Tunnel → Result Agent
owner_of p t = elim (get_agent p t.agent_id) [ none ↦ raise 500 integrity_error | some a ↦ ok a ]

-- the checks of `update_tunnel`, in order
unfoldable pub check_update :
    Settings → Panel → User → Agent → Tunnel → TunnelUpdate → Result (Unit {0})
check_update s p u agent t f = do
  check_team_access agent.team_id u
  reject_if (bad_health (patched f.health_check_type none)) 422 bad_health_check
  check_new_subdomain s p agent t.id f.subdomain

unfoldable pub update_tunnel : Settings → User → ℕ → TunnelUpdate → Panel → Result (Panel × Tunnel)
update_tunnel s u tunnel_id f p = do
  t ← or_404 (get_tunnel p tunnel_id)
  agent ← owner_of p t
  check_update s p u agent t f
  port ← new_port s p agent.node_id t.id f.remote_port
  row ← set_fields f port t
  ok (bump agent.id (set_tunnel p tunnel_id (λ _. row)), row)

unfoldable pub delete_tunnel : User → ℕ → Panel → Result Panel
delete_tunnel u tunnel_id p = do
  t ← or_404 (get_tunnel p tunnel_id)
  agent ← owner_of p t
  check_team_access agent.team_id u
  ok (bump agent.id (record p { tunnels = select (λ x. not (x.id == tunnel_id)) p.tunnels }))
