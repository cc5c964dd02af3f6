-- ===== src/Tunnels/Updated.antt =====
-- What a successful request to `update_tunnel` or `delete_tunnel` says, step by step.
use rc_tunnel.Base.{
  ℕ, ◌≡◌, ◌==◌, not, Option, some, select, ok, >>=-eq-ok, >>=-elim, ok-pair, arith,
}
use rc_tunnel.Settings.{Settings}
use rc_tunnel.Models.{Panel, User, Agent, Tunnel, get_agent, get_tunnel, set_tunnel}
use rc_tunnel.Deps.{check_team_access}
use rc_tunnel.Schemas.{Patch, TunnelUpdate}
use rc_tunnel.Tunnels.Handlers.{
  or_404, owner_of, check_update, check_new_subdomain, new_port, set_fields, bump, update_tunnel,
  patched, required, delete_tunnel,
}

pub record Updated (s : Settings) (u : User) (tunnel_id : ℕ) (f : TunnelUpdate) (p p' : Panel)
    (row : Tunnel) : Type 0 where
  pub old : Tunnel
  pub agent : Agent
  pub found : get_tunnel p tunnel_id ≡ some old
  pub owner : get_agent p old.agent_id ≡ some agent
  pub allowed : check_team_access agent.team_id u ≡ ok tt
  pub subdomain_free : check_new_subdomain s p agent old.id f.subdomain ≡ ok tt
  pub port : Patch ℕ
  pub chosen : new_port s p agent.node_id old.id f.remote_port ≡ ok port
  pub written : set_fields f port old ≡ ok row
  pub state : p' ≡ bump agent.id (set_tunnel p tunnel_id (λ _. row))

or_404-ok : (o : Option Tunnel) (t : Tunnel) → or_404 o ≡ ok t → o ≡ some t
unfolding or_404
or_404-ok o t h = ground arith

owner_of-ok :
    (p : Panel) (t : Tunnel) (a : Agent) → owner_of p t ≡ ok a → get_agent p t.agent_id ≡ some a
unfolding owner_of
owner_of-ok p t a h = ground arith

check_update-ok :
    (s : Settings) (p : Panel) (u : User) (a : Agent) (t : Tunnel) (f : TunnelUpdate)
    → check_update s p u a t f ≡ ok tt
    → (check_team_access a.team_id u ≡ ok tt) × (check_new_subdomain s p a t.id f.subdomain ≡ ok tt)
unfolding check_update
check_update-ok s p u a t f h = ground arith

pub update_tunnel-Updated :
    (s : Settings) (u : User) (tunnel_id : ℕ) (f : TunnelUpdate) (p p' : Panel) (row : Tunnel)
    → update_tunnel s u tunnel_id f p ≡ ok (p', row)
    → Updated s u tunnel_id f p p' row
unfolding update_tunnel
update_tunnel-Updated s u tunnel_id f p p' row h =
    >>=-elim (or_404 (get_tunnel p tunnel_id)) _ h λ t e₁ h₁.
      >>=-elim (owner_of p t) _ h₁ λ agent e₂ h₂.
        >>=-elim (check_update s p u agent t f) _ h₂ λ v e₃ h₃.
          >>=-elim (new_port s p agent.node_id t.id f.remote_port) _ h₃ λ port e₄ h₄.
            >>=-elim (set_fields f port t) _ h₄ λ row' e₅ h₅.
              let (state, same) = ok-pair h₅ in
              let (allowed, free) = check_update-ok s p u agent t f e₃ in
              record {
                old = t;
                agent = agent;
                found = or_404-ok _ t e₁;
                owner = owner_of-ok p t agent e₂;
                allowed = allowed;
                subdomain_free = free;
                port = port;
                chosen = e₄;
                written = rw same e₅;
                state = rw same state;
              }

pub record Deleted (u : User) (tunnel_id : ℕ) (p p' : Panel) : Type 0 where
  pub old : Tunnel
  pub agent : Agent
  pub found : get_tunnel p tunnel_id ≡ some old
  pub owner : get_agent p old.agent_id ≡ some agent
  pub allowed : check_team_access agent.team_id u ≡ ok tt
  pub state :
      p' ≡ bump agent.id (record p { tunnels = select (λ x. not (x.id == tunnel_id)) p.tunnels })

pub delete_tunnel-Deleted :
    (u : User) (tunnel_id : ℕ) (p p' : Panel)
    → delete_tunnel u tunnel_id p ≡ ok p'
    → Deleted u tunnel_id p p'
unfolding delete_tunnel
delete_tunnel-Deleted u tunnel_id p p' h =
    let (t, e₁, h₁) = >>=-eq-ok (or_404 (get_tunnel p tunnel_id)) _ h in
    let (agent, e₂, h₂) = >>=-eq-ok (owner_of p t) _ h₁ in
    let (v, e₃, h₃) = >>=-eq-ok (check_team_access agent.team_id u) _ h₂ in
    record {
      old = t;
      agent = agent;
      found = or_404-ok _ t e₁;
      owner = owner_of-ok p t agent e₂;
      allowed = e₃;
      state = cc;
    }

-- the columns that an update leaves alone, and the two that the checks are about
pub record Kept (f : TunnelUpdate) (port : Patch ℕ) (t row : Tunnel) : Type 0 where
  pub id : row.id ≡ t.id
  pub agent_id : row.agent_id ≡ t.agent_id
  pub type : row.type ≡ t.type
  pub custom_domains : row.custom_domains ≡ t.custom_domains
  pub remote_port : row.remote_port ≡ patched port t.remote_port
  pub subdomain : row.subdomain ≡ patched f.subdomain t.subdomain

pub set_fields-Kept :
    (f : TunnelUpdate) (port : Patch ℕ) (t row : Tunnel)
    → set_fields f port t ≡ ok row
    → Kept f port t row
unfolding set_fields
set_fields-Kept f port t row h =
    let (v₁, e₁, h₁) = >>=-eq-ok (required f.enabled t.enabled) _ h in
    let (v₂, e₂, h₂) = >>=-eq-ok (required f.local_ip t.local_ip) _ h₁ in
    let (v₃, e₃, h₃) = >>=-eq-ok (required f.local_port t.local_port) _ h₂ in
    let (v₄, e₄, h₄) = >>=-eq-ok (required f.use_encryption t.use_encryption) _ h₃ in
    let (v₅, e₅, h₅) = >>=-eq-ok (required f.use_compression t.use_compression) _ h₄ in ground arith
