-- ===== src/Supervisor/Render.antt =====
-- rctunnel-panel/agent/rctunnel_agent.py and localip.py: from a desired configuration to the
-- configuration of rctc, with `auto` resolved to the address of this host.
use rc_tunnel.Base.{
  ℕ, suc, Bool, Option, none, some, List, [], ◌∷◌, ◌++◌, map, Text, codes, text_eq, starts_with,
  str, if◌then◌else◌,
}
use rc_tunnel.Models.{TunnelType, tcp, udp, http, https}
use rc_tunnel.Protocol.{TunnelPayload, ConfigPayload, custom_fqdns}

-- `detect_primary_ipv4`: the address of the route to the internet, if the dial worked, and those of
-- this host's interfaces, if its name resolves
abbrev pub is_loopback : Text → Bool
is_loopback ip = starts_with (codes "127.") ip

unfoldable pub first_address : List Text → Text
first_address [] = codes "127.0.0.1"
first_address (ip ∷ ips) = let rest = first_address ips in if is_loopback ip then rest else ip

unfoldable pub detect_primary_ipv4 : Option Text → List Text → Text
unfolding first_address
detect_primary_ipv4 none interfaces = first_address interfaces
detect_primary_ipv4 (some []) interfaces = first_address interfaces
detect_primary_ipv4 (some (c ∷ ip)) interfaces =
    if is_loopback (c ∷ ip) then first_address interfaces else c ∷ ip

-- `resolve`, with what `detect_primary_ipv4` gave
unfoldable pub resolve : Text → Text → Text
resolve detected local_ip = if text_eq local_ip (codes "auto") then detected else local_ip

-- a proxy in the configuration of rctc
pub record ProxySpec : Type 0 where
  pub name : Text
  pub type : TunnelType
  pub local_addr : Text
  pub remote_port : Option ℕ
  pub custom_domains : Option (List Text)
  pub subdomain : Option Text

-- `t.get("proxy_name") or t["name"]`
abbrev pub name_or : Text → Text → Text
name_or [] name = name
name_or (c ∷ proxy_name) name = c ∷ proxy_name

-- only of a tcp or udp tunnel, and not 0
abbrev pub spec_port : TunnelType → Option ℕ → Option ℕ
spec_port tcp (some (suc n)) = some (suc n)
spec_port udp (some (suc n)) = some (suc n)
spec_port _ _ = none

-- only of an http or https tunnel, and not empty
abbrev pub listed : Option Text → Option (List Text)
listed none = none
listed (some []) = none
listed (some (c ∷ s)) = some (custom_fqdns (some (c ∷ s)))

abbrev pub spec_domains : TunnelType → Option Text → Option (List Text)
spec_domains http custom = listed custom
spec_domains https custom = listed custom
spec_domains _ custom = none

abbrev pub nonempty : Option Text → Option Text
nonempty none = none
nonempty (some []) = none
nonempty (some (c ∷ s)) = some (c ∷ s)

abbrev pub spec_subdomain : TunnelType → Option Text → Option Text
spec_subdomain http sub = nonempty sub
spec_subdomain https sub = nonempty sub
spec_subdomain _ sub = none

unfoldable pub render_proxy : Text → TunnelPayload → ProxySpec
unfolding resolve
render_proxy detected t = record {
  name = name_or t.proxy_name t.name;
  type = t.type;
  local_addr = resolve detected t.local_ip ++ (b':' ∷ str t.local_port);
  remote_port = spec_port t.type t.remote_port;
  custom_domains = spec_domains t.type t.custom_domains;
  subdomain = spec_subdomain t.type t.subdomain;
}

-- where the certificates stand
pub record Paths : Type 0 where
  pub ca : Text
  pub cert : Text
  pub key : Text

-- what rctc.json holds
pub record RctcConfig : Type 0 where
  pub control_addr : Text
  pub work_conn_addr : Text
  pub token : Text
  pub grant : Text
  pub ca : Text
  pub cert : Text
  pub key : Text
  pub server_name : Text
  pub proxies : List ProxySpec

-- The panel sends only the four types of tunnel that the loop keeps.
unfoldable pub render_rctc : Paths → Text → ConfigPayload → RctcConfig
unfolding render_proxy
render_rctc paths detected msg = record {
  control_addr = msg.node.server_addr ++ (b':' ∷ str msg.node.server_port);
  work_conn_addr = msg.node.server_addr ++ (b':' ∷ str msg.node.workconn_port);
  token = msg.node.token;
  grant = msg.grant;
  ca = paths.ca;
  cert = paths.cert;
  key = paths.key;
  server_name = msg.node.server_addr;
  proxies = map (render_proxy detected) msg.tunnels;
}
