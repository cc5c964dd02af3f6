-- ===== src/Startup.antt =====
-- rctunnel-panel/rctunnel_panel/db.py: the rows that the panel makes and changes when it starts:
-- the default team, the one node, and the demo rows. The ids and the defaults of new rows are
-- arguments, as are the clock and the hash of the random password of the demo user.
pub mod Lifespan
pub mod Migrate
pub mod Migrated
pub mod Renamed
pub mod Restarted
pub mod Settled
pub mod Tenancy
use rc_tunnel.Base.{
  ℕ, ◌==◌, ◌||◌, ◌&&◌, not, Bool, true, false, Option, none, some, List, [], ◌∷◌, ◌++◌, map, find,
  any, update, length, ltb, Text, codes, text_eq, truthy, option_eq, if◌then◌else◌, Result, ok,
  raise, ◌>>=◌, integrity_error,
}
use rc_tunnel.Settings.{Settings}
use rc_tunnel.Models.{
  Panel, Team, User, Node, Agent, Tunnel, TunnelOpts, TunnelType, http, tcp, Role, demo, online,
  is_domain_type,
}

-- `team_id IS NULL`
abbrev pub lacks_team : Option ℕ → Bool
lacks_team none = true
lacks_team (some id) = false

-- `Team(name=…, subdomain_label=…)`
unfoldable pub labelled_team : ℕ → ℕ → Text → Text → Team
labelled_team id now name label = record {
  id = id;
  name = name;
  subdomain_label = some label;
  quota_bytes = none;
  suspended = false;
  created_at = now;
}

abbrev pub has_this_label : Text → Team → Bool
has_this_label label t = option_eq t.subdomain_label (some label)

-- the team with this name, which is made if there is none. The UNIQUE column refuses a label that
-- another team has, which is an exception here, not an answer to a request.
unfoldable pub team_named : ℕ → ℕ → Text → Text → Panel → Result (Panel × Team)
unfolding labelled_team
team_named id now name label p = elim (find (λ t. text_eq t.name name) p.teams) [
  | none ↦
      if any (has_this_label label) p.teams
      then raise 500 integrity_error
      else let team = labelled_team id now name label in
        ok (record p { teams = p.teams ++ (team ∷ []) }, team)
  | some team ↦ ok (p, team)
]

-- `if not team.subdomain_label`, which the UNIQUE column may refuse as well
unfoldable pub default_label : Team → Panel → Result Panel
default_label team p =
    if truthy team.subdomain_label
    then ok p
    else if any (has_this_label (codes "default")) p.teams
    then raise 500 integrity_error
    else ok (record p {
      teams =
          update (λ t. t.id == team.id) (λ t. record t { subdomain_label = some (codes "default") })
            p.teams;
    })

abbrev pub place_user : ℕ → List User → List User
place_user id = update (λ u. lacks_team u.team_id) (λ u. record u { team_id = some id })

abbrev pub place_agent : ℕ → List Agent → List Agent
place_agent id = update (λ a. lacks_team a.team_id) (λ a. record a { team_id = some id })

unfoldable pub place_all : ℕ → Panel → Panel
place_all id p = record p { users = place_user id p.users; agents = place_agent id p.agents }

unfoldable pub seed_default_team : ℕ → ℕ → Panel → Result Panel
unfolding team_named default_label place_all
seed_default_team new_id now p =
    if length p.users == 0
    then ok p
    else team_named new_id now (codes "default") (codes "default") p >>= λ (q, team).
        default_label team q >>= λ q'. ok (place_all team.id q')

-- `order_by(Node.id).first()`
unfoldable pub first_node : List Node → Option Node
first_node [] = none
first_node (n ∷ ns) = elim (first_node ns) [
  | none ↦ some n
  | some m ↦ if ltb m.id n.id then some m else some n
]

-- `a or b`
abbrev pub text_or : Text → Text → Text
text_or [] b = b
text_or (c ∷ a) b = c ∷ a

unfoldable pub from_settings : Settings → Node → Node
from_settings s n = record n {
  name = codes "system";
  public_addr = text_or s.node_public_addr s.public_domain;
  subdomain_host = s.public_domain;
  control_port = s.rctd_control_port;
  vhost_http_port = s.rctd_vhost_port;
  node_token = text_or s.node_token n.node_token;
}

-- with the row that would be new
unfoldable pub seed_system_node : Settings → Node → Panel → Panel
unfolding from_settings first_node
seed_system_node s new_node p = elim (first_node p.nodes) [
  | none ↦ record p { nodes = p.nodes ++ (from_settings s new_node ∷ []) }
  | some n ↦ record p { nodes = update (λ m. m.id == n.id) (from_settings s) p.nodes }
]

abbrev pub demo_email : Text
demo_email = codes "demo@rc-tunnel.com"

-- the ids of the rows, the clock, the hash of a random password, and the token of the agent
pub record DemoRows : Type 0 where
  pub team_id : ℕ
  pub user_id : ℕ
  pub agent_id : ℕ
  pub site_id : ℕ
  pub ssh_id : ℕ
  pub now : ℕ
  pub password_hash : Text
  pub agent_token : Text

unfoldable pub demo_user : DemoRows → ℕ → User
demo_user r team_id = record {
  id = r.user_id;
  email = demo_email;
  password_hash = r.password_hash;
  role = demo;
  team_id = some team_id;
  token_version = 0;
  created_at = r.now;
}

unfoldable pub demo_agent : DemoRows → ℕ → ℕ → Agent
demo_agent r node_id team_id = record {
  id = r.agent_id;
  name = codes "demo-edge";
  agent_token = r.agent_token;
  token_used = false;
  node_id = node_id;
  team_id = some team_id;
  status = online;
  last_seen = some r.now;
  lan_ip = some (codes "10.0.0.42");
  os = some (codes "linux");
  arch = some (codes "x86_64");
  agent_version = some (codes "0.6.0");
  last_ping_ms = some 23;
  cert_days_left = none;
  cert_serial = none;
  prev_cert_serial = none;
  generation = 0;
  created_at = r.now;
}

abbrev demo_opts : Option Text → TunnelOpts
demo_opts health = record {
  use_encryption = false;
  use_compression = false;
  bandwidth_limit = none;
  health_check_type = health;
  health_check_path = none;
  http_user = none;
  http_password = none;
  host_header_rewrite = none;
}

unfoldable pub demo_tunnel :
    DemoRows → ℕ → Text → TunnelType → ℕ → Option ℕ → Option Text → Option Text → Tunnel
demo_tunnel r id name type local_port remote_port sub health = record {
  id = id;
  agent_id = r.agent_id;
  name = name;
  type = type;
  local_ip = codes "auto";
  local_port = local_port;
  remote_port = remote_port;
  subdomain = sub;
  custom_domains = none;
  enabled = true;
  created_at = r.now;
  opts = demo_opts health;
  bytes_in = 0;
  bytes_out = 0;
  last_today_in = 0;
  last_today_out = 0;
}

unfoldable pub demo_tunnels : DemoRows → List Tunnel
unfolding demo_tunnel
demo_tunnels r =
    demo_tunnel r r.site_id (codes "demo-site") http 8080 none (some (codes "demo")) none
    ∷ demo_tunnel r r.ssh_id (codes "demo-ssh") tcp 22 (some 12022) none (some (codes "tcp"))
    ∷ []

-- `db.query(Node).first()`
abbrev pub some_node : List Node → Option Node
some_node [] = none
some_node (n ∷ ns) = some n

abbrev pub with_edge : DemoRows → ℕ → Panel → Panel
with_edge r team_id p = elim (some_node p.nodes) [
  | none ↦ p
  | some n ↦ record p {
    agents = p.agents ++ (demo_agent r n.id team_id ∷ []);
    tunnels = p.tunnels ++ demo_tunnels r;
  }
]

unfoldable pub seed_demo : DemoRows → Panel → Result Panel
unfolding team_named demo_user demo_agent demo_tunnels
seed_demo r p =
    if any (λ u. text_eq u.email demo_email) p.users
    then ok p
    else team_named r.team_id r.now (codes "Demo") (codes "demo") p >>= λ (q, team).
        ok (with_edge r team.id (record q { users = q.users ++ (demo_user r team.id ∷ []) }))

-- the rows after `init_db`
unfoldable pub init_rows : Settings → ℕ → ℕ → Node → DemoRows → Panel → Result Panel
unfolding seed_default_team seed_system_node seed_demo
init_rows s new_team_id now new_node r p = seed_default_team new_team_id now p >>= λ q.
    let demoed = seed_demo r (seed_system_node s new_node q) in
    if s.demo_mode then demoed else ok (seed_system_node s new_node q)
