-- ===== src/Protocol.antt =====
-- rctunnel-panel/rctunnel_panel/control/protocol.py: the messages that the panel sends to an
-- agent, and the grant that goes with a configuration.
pub mod Scope
pub mod EndToEnd
use rc_tunnel.Base.{
  ℕ, zero, suc, Bool, true, false, Option, none, some, List, [], ◌∷◌, ◌++◌, map, select, Text,
  codes, truthy, strip, split, join, str, if◌then◌else◌,
}
use rc_tunnel.Models.{Agent, Node, Tunnel, TunnelOpts, TunnelType, is_domain_type, is_port_type}
use rc_tunnel.Grant.{is_nonempty, sign, grant_ttl}

pub record TunnelPayload : Type 0 where
  pub id : ℕ
  pub name : Text
  pub proxy_name : Text
  pub type : TunnelType
  pub local_ip : Text
  pub local_port : ℕ
  pub remote_port : Option ℕ
  pub subdomain : Option Text
  pub custom_domains : Option Text
  pub opts : TunnelOpts

unfoldable pub tunnel_payload : Tunnel → TunnelPayload
tunnel_payload t = record {
  id = t.id;
  name = t.name;
  proxy_name = codes "t" ++ str t.id;
  type = t.type;
  local_ip = t.local_ip;
  local_port = t.local_port;
  remote_port = t.remote_port;
  subdomain = t.subdomain;
  custom_domains = t.custom_domains;
  opts = t.opts;
}

pub record NodeInfo : Type 0 where
  pub server_addr : Text
  pub server_port : ℕ
  pub workconn_port : ℕ
  pub token : Text

-- `welcome_payload`
pub record Welcome : Type 0 where
  pub agent_id : ℕ
  pub server_addr : Text
  pub server_port : ℕ
  pub token : Text

unfoldable pub welcome_payload : Agent → Node → Welcome
welcome_payload a n = record {
  agent_id = a.id;
  server_addr = n.public_addr;
  server_port = n.control_port;
  token = n.node_token;
}

-- `f"{team_label}.{subdomain_host}" if team_label else subdomain_host`
unfoldable pub suffix_of : Option Text → Text → Text
suffix_of none host = host
suffix_of (some []) host = host
suffix_of (some (c ∷ label)) host = (c ∷ label) ++ (b'.' ∷ host)

-- the host of the subdomain field, if there is one
unfoldable pub own_fqdn : Option Text → Text → List Text
own_fqdn none suffix = []
own_fqdn (some []) suffix = []
own_fqdn (some (c ∷ sub)) suffix = ((c ∷ sub) ++ (b'.' ∷ suffix)) ∷ []

-- `[d.strip() for d in domains.split(",") if d.strip()]`
unfoldable pub stripped : Text → List Text
stripped s = select is_nonempty (map strip (split b',' s))

unfoldable pub custom_fqdns : Option Text → List Text
unfolding stripped
custom_fqdns none = []
custom_fqdns (some []) = []
custom_fqdns (some (c ∷ s)) = stripped (c ∷ s)

unfoldable pub fqdns_of : Option Text → Option Text → Text → List Text
unfolding own_fqdn custom_fqdns
fqdns_of subdomain custom suffix = own_fqdn subdomain suffix ++ custom_fqdns custom

-- `",".join(fqdns) if fqdns else None`
unfoldable pub joined : List Text → Option Text
joined [] = none
joined (f ∷ fs) = some (join b',' (f ∷ fs))

unfoldable pub domainize : TunnelPayload → Text → Option Text → TunnelPayload
unfolding fqdns_of suffix_of joined
domainize p host label =
    if is_domain_type p.type
    then record p {
      subdomain = none;
      custom_domains = joined (fqdns_of p.subdomain p.custom_domains (suffix_of label host));
    }
    else p

-- the ports that the grant lists
unfoldable pub grant_ports : List TunnelPayload → List ℕ
grant_ports [] = []
grant_ports (tp ∷ tps) =
    let rest = grant_ports tps in
    elim tp.remote_port [
      | none ↦ rest
      | some zero ↦ rest
      | some (suc n) ↦ if is_port_type tp.type then suc n ∷ rest else rest
    ]

-- and the hosts
unfoldable pub grant_hosts : List TunnelPayload → List Text
unfolding custom_fqdns
grant_hosts [] = []
grant_hosts (tp ∷ tps) =
    (if is_domain_type tp.type then custom_fqdns tp.custom_domains else []) ++ grant_hosts tps

unfoldable pub out_tunnels : Node → List Tunnel → Option Text → List TunnelPayload
unfolding domainize tunnel_payload
out_tunnels node tunnels label =
    map (λ t. domainize (tunnel_payload t) node.subdomain_host label)
      (select (λ t. t.enabled) tunnels)

pub record ConfigPayload : Type 0 where
  pub generation : ℕ
  pub grant : Text
  pub node : NodeInfo
  pub tunnels : List TunnelPayload

-- the identity in the agent's certificate
unfoldable pub agent_cn : ℕ → Text
agent_cn id = codes "agent." ++ str id

module _ (hmac : Text → Text → Text) where
  -- no grant is signed without a secret
  unfoldable pub grant_for : Text → Agent → List TunnelPayload → ℕ → Text
  grant_for [] agent tps now = []
  grant_for (c ∷ secret) agent tps now =
      sign hmac (c ∷ secret) (agent_cn agent.id) (grant_ports tps) (grant_hosts tps) now grant_ttl

  unfoldable pub config_payload :
      Agent → Node → List Tunnel → Option Text → ℕ → Text → ℕ → ConfigPayload
  unfolding grant_for
  config_payload agent node tunnels label workconn_port secret now =
      let tps = out_tunnels node tunnels label in
      record {
        generation = agent.generation;
        grant = grant_for secret agent tps now;
        node = record {
          server_addr = node.public_addr;
          server_port = node.control_port;
          workconn_port = workconn_port;
          token = node.node_token;
        };
        tunnels = tps;
      }
