-- ===== src/Models.antt =====
-- rctunnel-panel/rctunnel_panel/models.py: the tables, as lists of rows in one state that also
-- holds what the handlers change outside the database: the file of revoked serials (pki.py) and
-- the agents that were notified over control/bus.py. Times are seconds.
use rc_tunnel.Base.{
  zero, suc, ℕ, ℤ, Bool, true, false, Option, none, some, List, ◌++◌, [], ◌∷◌, find, update, ◌==◌,
  Text, text_eq, truthy, codes, not, strip, if◌then◌else◌, ◌||◌,
}

pub data Role : Type 0 where
  admin team_admin user demo : Role

pub data TunnelType : Type 0 where
  tcp udp http https : TunnelType

pub data AgentStatus : Type 0 where
  online offline : AgentStatus

pub record Team : Type 0 where
  pub id : ℕ
  pub name : Text
  pub subdomain_label : Option Text
  pub quota_bytes : Option ℕ
  pub suspended : Bool
  pub created_at : ℕ

pub record User : Type 0 where
  pub id : ℕ
  pub email : Text
  pub password_hash : Text
  pub role : Role
  pub team_id : Option ℕ
  pub token_version : ℕ
  pub created_at : ℕ

pub record Node : Type 0 where
  pub id : ℕ
  pub name : Text
  pub public_addr : Text
  pub control_port : ℕ
  pub vhost_http_port : ℕ
  pub subdomain_host : Text
  pub node_token : Text
  pub created_at : ℕ

pub record Agent : Type 0 where
  pub id : ℕ
  pub name : Text
  pub agent_token : Text
  pub token_used : Bool
  pub node_id : ℕ
  pub team_id : Option ℕ
  pub status : AgentStatus
  pub last_seen : Option ℕ
  pub lan_ip : Option Text
  pub os : Option Text
  pub arch : Option Text
  pub agent_version : Option Text
  pub last_ping_ms : Option ℕ
  pub cert_days_left : Option ℤ
  pub cert_serial : Option Text
  pub prev_cert_serial : Option Text
  pub generation : ℕ
  pub created_at : ℕ

-- the options of a tunnel, which `_TunnelOpts` of schemas.py gathers
pub record TunnelOpts : Type 0 where
  pub use_encryption : Bool
  pub use_compression : Bool
  pub bandwidth_limit : Option Text
  pub health_check_type : Option Text
  pub health_check_path : Option Text
  pub http_user : Option Text
  pub http_password : Option Text
  pub host_header_rewrite : Option Text

pub record Tunnel : Type 0 where
  pub id : ℕ
  pub agent_id : ℕ
  pub name : Text
  pub type : TunnelType
  pub local_ip : Text
  pub local_port : ℕ
  pub remote_port : Option ℕ
  pub subdomain : Option Text
  pub custom_domains : Option Text
  pub enabled : Bool
  pub created_at : ℕ
  pub opts : TunnelOpts
  pub open opts use *
  pub bytes_in : ℕ
  pub bytes_out : ℕ
  pub last_today_in : ℕ
  pub last_today_out : ℕ

pub record Panel : Type 0 where
  pub teams : List Team
  pub users : List User
  pub nodes : List Node
  pub agents : List Agent
  pub tunnels : List Tunnel
  pub revoked_serials : List Text
  -- whether the next appends to that file succeed; those after them do
  pub appends : List Bool
  pub notified : List ℕ

-- `db.get(Agent, id)`, and so for the other tables
abbrev pub get_agent : Panel → ℕ → Option Agent
get_agent p id = find (λ a. a.id == id) p.agents

abbrev pub get_tunnel : Panel → ℕ → Option Tunnel
get_tunnel p id = find (λ t. t.id == id) p.tunnels

abbrev pub get_node : Panel → ℕ → Option Node
get_node p id = find (λ n. n.id == id) p.nodes

abbrev pub get_user : Panel → ℕ → Option User
get_user p id = find (λ u. u.id == id) p.users

-- `db.get(Team, id) if id else None`
abbrev pub get_team : Panel → Option ℕ → Option Team
get_team p none = none
get_team p (some zero) = none
get_team p (some (suc id)) = find (λ t. t.id == suc id) p.teams

-- writes to the row of one agent, and of one tunnel
abbrev pub set_agent : Panel → ℕ → (Agent → Agent) → Panel
set_agent p id f = record p { agents = update (λ a. a.id == id) f p.agents }

abbrev pub set_tunnel : Panel → ℕ → (Tunnel → Tunnel) → Panel
set_tunnel p id f = record p { tunnels = update (λ t. t.id == id) f p.tunnels }

-- `type in _DOMAIN_TYPES`
abbrev pub is_domain_type : TunnelType → Bool
is_domain_type http = true
is_domain_type https = true
is_domain_type _ = false

abbrev pub is_port_type : TunnelType → Bool
is_port_type tcp = true
is_port_type udp = true
is_port_type _ = false

-- `notify_agent` of control/bus.py
abbrev pub notify_agent : Panel → ℕ → Panel
notify_agent p id = record p { notified = p.notified ++ (id ∷ []) }

abbrev pub succeeds : List Bool → Bool
succeeds [] = true
succeeds (b ∷ later) = b

abbrev pub later_ones : List Bool → List Bool
later_ones [] = []
later_ones (b ∷ later) = later

-- `revoke_serial` of pki.py, which swallows the failure of its append
unfoldable pub revoke_serial : Option Text → Panel → Panel
revoke_serial none p = p
revoke_serial (some s) p =
    if not (truthy (some s)) || text_eq s (codes "revoked") then p else record p {
      revoked_serials =
          if succeeds p.appends then p.revoked_serials ++ (strip s ∷ []) else p.revoked_serials;
      appends = later_ones p.appends;
    }
