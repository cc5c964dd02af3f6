-- ===== src/Tunnels/Created.antt =====
-- What a successful request to `create_tunnel` says, step by step.
use rc_tunnel.Base.{
  ℕ, ◌≡◌, ap, false, Option, none, some, [], ◌∷◌, ◌++◌, length, select, any, leb, ◌==◌, ◌&&◌,
  text_eq, ok, >>=-eq-ok, arith,
}
use rc_tunnel.Settings.{Settings}
use rc_tunnel.Models.{Panel, User, Agent, Tunnel, get_agent, get_team}
use rc_tunnel.Deps.{check_team_access}
use rc_tunnel.Schemas.{TunnelCreate}
use rc_tunnel.Tunnels.Domains.{check_custom_domains, check_subdomain_unique}
use rc_tunnel.Tunnels.Handlers.{
  agent_or_404, check_create, validate, has_label, choose_port, new_tunnel, bump, create_tunnel,
}

pub agent_or_404-ok :
    (p : Panel) (u : User) (id : ℕ) (a : Agent)
    → agent_or_404 p u id ≡ ok a
    → (get_agent p id ≡ some a) × (check_team_access a.team_id u ≡ ok tt)
unfolding agent_or_404
agent_or_404-ok p u id a h = ground arith

pub record Checked (s : Settings) (p : Panel) (agent_id : ℕ) (agent : Agent) (body : TunnelCreate)
    : Type 0 where
  pub valid : validate s body (has_label (get_team p agent.team_id)) ≡ ok tt
  pub room :
      leb s.max_tunnels_per_agent (length (select (λ t. t.agent_id == agent_id) p.tunnels)) ≡ false
  pub name_free : any (λ t. t.agent_id == agent_id && text_eq t.name body.name) p.tunnels ≡ false
  pub subdomain_free : check_subdomain_unique p body.subdomain agent.team_id none ≡ ok tt
  pub domains_free : check_custom_domains s p body.custom_domains none ≡ ok tt

check_create-Checked :
    (s : Settings) (p : Panel) (agent_id : ℕ) (agent : Agent) (body : TunnelCreate)
    → check_create s p agent_id agent body ≡ ok tt
    → Checked s p agent_id agent body
unfolding check_create
check_create-Checked s p agent_id agent body h = ground arith

pub record Created (s : Settings) (u : User) (agent_id : ℕ) (body : TunnelCreate) (id now : ℕ)
    (p p' : Panel) (row : Tunnel) : Type 0 where
  pub agent : Agent
  pub found : get_agent p agent_id ≡ some agent
  pub allowed : check_team_access agent.team_id u ≡ ok tt
  pub checked : Checked s p agent_id agent body
  pub port : Option ℕ
  pub chosen : choose_port s p agent.node_id body ≡ ok port
  pub row_eq : row ≡ new_tunnel id now agent_id body port
  pub state : p' ≡ bump agent_id (record p { tunnels = p.tunnels ++ (row ∷ []) })

pub create_tunnel-Created :
    (s : Settings) (u : User) (agent_id : ℕ) (body : TunnelCreate) (id now : ℕ) (p p' : Panel)
    (row : Tunnel)
    → create_tunnel s u agent_id body id now p ≡ ok (p', row)
    → Created s u agent_id body id now p p' row
unfolding create_tunnel
create_tunnel-Created s u agent_id body id now p p' row h =
    let (agent, e₁, h₁) = >>=-eq-ok (agent_or_404 p u agent_id) _ h in
    let (v, e₂, h₂) = >>=-eq-ok (check_create s p agent_id agent body) _ h₁ in
    let (port, e₃, h₃) = >>=-eq-ok (choose_port s p agent.node_id body) _ h₂ in
    let (found, allowed) = agent_or_404-ok p u agent_id agent e₁ in
    record {
      agent = agent;
      found = found;
      allowed = allowed;
      checked = check_create-Checked s p agent_id agent body e₂;
      port = port;
      chosen = e₃;
      row_eq = cc;
      state = cc;
    }

-- the columns of the new row that the checks are about
pub record NewRow (agent_id : ℕ) (body : TunnelCreate) (id : ℕ) (port : Option ℕ) (row : Tunnel)
    : Type 0 where
  pub id_lem : row.id ≡ id
  pub agent_id_lem : row.agent_id ≡ agent_id
  pub type_lem : row.type ≡ body.type
  pub remote_port_lem : row.remote_port ≡ port
  pub subdomain_lem : row.subdomain ≡ body.subdomain
  pub custom_domains_lem : row.custom_domains ≡ body.custom_domains

pub new_tunnel-NewRow :
    (agent_id : ℕ) (body : TunnelCreate) (id now : ℕ) (port : Option ℕ) (row : Tunnel)
    → row ≡ new_tunnel id now agent_id body port
    → NewRow agent_id body id port row
unfolding new_tunnel
new_tunnel-NewRow agent_id body id now port row e = record {
  id_lem = ap (λ t. t.id) e;
  agent_id_lem = ap (λ t. t.agent_id) e;
  type_lem = ap (λ t. t.type) e;
  remote_port_lem = ap (λ t. t.remote_port) e;
  subdomain_lem = ap (λ t. t.subdomain) e;
  custom_domains_lem = ap (λ t. t.custom_domains) e;
}
