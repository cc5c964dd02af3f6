-- ===== src/Examples/Data.antt =====
-- The tables that the examples start from.
use rc_tunnel.Base.{
  ℕ, ◌≡◌, ◌==◌, any, arith, Lacks, true, false, none, some, [], ◌∷◌, codes, Text, Option,
}
use rc_tunnel.Models.{
  Panel, Team, User, Node, Agent, Tunnel, TunnelOpts, TunnelType, tcp, http, admin, team_admin,
  offline,
}

abbrev pub acme : Team
acme = record {
  id = 1;
  name = codes "Acme";
  subdomain_label = some (codes "acme");
  quota_bytes = some 100;
  suspended = false;
  created_at = 0;
}

abbrev pub root : User
root = record {
  id = 1;
  email = codes "root@x.io";
  password_hash = codes "secret";
  role = admin;
  team_id = none;
  token_version = 0;
  created_at = 0;
}

abbrev pub ann : User
ann = record {
  id = 2;
  email = codes "ann@x.io";
  password_hash = codes "pw";
  role = team_admin;
  team_id = some 1;
  token_version = 3;
  created_at = 0;
}

abbrev pub node : Node
node = record {
  id = 1;
  name = codes "n";
  public_addr = codes "1.2.3.4";
  control_port = 7000;
  vhost_http_port = 8090;
  subdomain_host = codes "x.io";
  node_token = codes "nt";
  created_at = 0;
}

-- an agent that is enrolled with the serial 7
abbrev pub box : Agent
box = record {
  id = 1;
  name = codes "box";
  agent_token = codes "boot";
  token_used = true;
  node_id = 1;
  team_id = some 1;
  status = offline;
  last_seen = none;
  lan_ip = none;
  os = none;
  arch = none;
  agent_version = none;
  last_ping_ms = none;
  cert_days_left = none;
  cert_serial = some (codes "7");
  prev_cert_serial = none;
  generation = 0;
  created_at = 0;
}

abbrev pub plain_opts : TunnelOpts
plain_opts = record {
  use_encryption = false;
  use_compression = false;
  bandwidth_limit = none;
  health_check_type = none;
  health_check_path = none;
  http_user = none;
  http_password = none;
  host_header_rewrite = none;
}

abbrev pub tunnel_of : ℕ → TunnelType → Option ℕ → Option Text → Tunnel
tunnel_of id type port sub = record {
  id = id;
  agent_id = 1;
  name = codes "t";
  type = type;
  local_ip = codes "auto";
  local_port = 80;
  remote_port = port;
  subdomain = sub;
  custom_domains = none;
  enabled = true;
  created_at = 0;
  opts = plain_opts;
  bytes_in = 0;
  bytes_out = 0;
  last_today_in = 5;
  last_today_out = 0;
}

abbrev pub ssh : Tunnel
ssh = tunnel_of 1 tcp (some 10000) none

abbrev pub web : Tunnel
web = tunnel_of 2 http none (some (codes "app"))

abbrev pub panel : Panel
panel = record {
  teams = acme ∷ [];
  users = root ∷ ann ∷ [];
  nodes = node ∷ [];
  agents = box ∷ [];
  tunnels = ssh ∷ web ∷ [];
  revoked_serials = [];
  appends = [];
  notified = [];
}

-- a code point that is tested not to occur
pub tested-Lacks : (c : ℕ) (s : Text) → any (λ d. d == c) s ≡ false → Lacks c s
tested-Lacks c [] h = tt
tested-Lacks c (d ∷ s) h = (ground arith, tested-Lacks c s (ground arith))
