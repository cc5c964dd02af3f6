-- ===== src/Tunnels/Hosts/Requests.antt =====
-- rctunnel-panel/rctunnel_panel/api/tunnels.py: the host names of the tunnels after each request.
use rc_tunnel.Base.{
  ap, ℕ, ◌≡◌, ◌≢◌, refl, sym, ◌∙◌, false, not, Option, none, some, List, ◌==◌, any, select, All, ok,
  Text, arith,
}
use rc_tunnel.Base.Relations.{
  Pairs-append, Pairs-select, Pairs-update, Pairs-others, both_ways, find-key,
}
use rc_tunnel.Settings.{Settings}
use rc_tunnel.Models.{Panel, User, Agent, Tunnel, set_tunnel}
use rc_tunnel.Schemas.{Patch, unset, given, TunnelCreate, TunnelUpdate}
use rc_tunnel.Tunnels.Domains.{check_subdomain_unique}
use rc_tunnel.Tunnels.Handlers.{
  create_tunnel, update_tunnel, delete_tunnel, check_new_subdomain, patched,
}
use rc_tunnel.Tunnels.Created.{Created, NewRow, create_tunnel-Created, new_tunnel-NewRow}
use rc_tunnel.Tunnels.Updated.{
  Updated, Deleted, Kept, update_tunnel-Updated, delete_tunnel-Deleted, set_fields-Kept,
}
use rc_tunnel.Tunnels.Exclusive.{fresh-ids, All-kept}
use rc_tunnel.Tunnels.Exclusive.Requests.{others-excluded, other-ids}
use rc_tunnel.Tunnels.Hosts.{
  HostsOk, SubdomainApart, DomainsApart, SubdomainApart-comm, NoneShared-comm, owned_domains,
  owning_team, HostsOk-bump, subdomain-Apart,
}
use rc_tunnel.Tunnels.Claims.{domains-Apart}

-- If the ids of the tunnels are distinct, no two tunnels of a team have the same subdomain and no
-- two tunnels have a custom domain in common, this still holds after a tunnel with a new id is
-- created.
pub create_tunnel-HostsOk :
    (s : Settings) (u : User) (agent_id : ℕ) (body : TunnelCreate) (id now : ℕ) (p p' : Panel)
    (row : Tunnel)
    → any (λ t. t.id == id) p.tunnels ≡ false
    → HostsOk p
    → create_tunnel s u agent_id body id now p ≡ ok (p', row)
    → HostsOk p'
create_tunnel-HostsOk s u agent_id body id now p p' row fresh ok_p h = rw c.state (
    HostsOk-bump _ agent_id (record {
      ids = Pairs-append _ p.tunnels row ok_p.ids (rw r.id_lem (fresh-ids id p.tunnels fresh));
      subdomains = Pairs-append _ p.tunnels row ok_p.subdomains (
          All-kept (λ t. SubdomainApart (owning_team p) t row) p.tunnels
            (subdomain-Apart p body.subdomain c.agent.team_id none row
              (rw (r.agent_id_lem, c.found) refl) r.subdomain_lem c.checked.subdomain_free));
      domains = Pairs-append _ p.tunnels row ok_p.domains (
          All-kept (λ t. DomainsApart t row) p.tunnels
            (domains-Apart s p body.custom_domains none row r.custom_domains_lem
              c.checked.domains_free));
    }))
  where
    c : Created s u agent_id body id now p p' row
    c = create_tunnel-Created s u agent_id body id now p p' row h

    r : NewRow agent_id body id c.port row
    r = new_tunnel-NewRow agent_id body id now c.port row c.row_eq

-- a row with the subdomain and the team of another
same_subdomain-Apart :
    (p : Panel) (k : ℕ) (old row : Tunnel) (ts : List Tunnel)
    → owning_team p row ≡ owning_team p old
    → row.subdomain ≡ old.subdomain
    → All (λ t. t.id ≢ k → SubdomainApart (owning_team p) t old) ts
    → All (λ t. t.id ≢ k → SubdomainApart (owning_team p) t row) ts
same_subdomain-Apart p k old row ts at_team at_sub h = rw (at_team, at_sub) h

check_new_subdomain-check_subdomain_unique :
    (s : Settings) (p : Panel) (a : Agent) (id : ℕ) (sub : Option Text)
    → check_new_subdomain s p a id (given sub) ≡ ok tt
    → check_subdomain_unique p sub a.team_id (some id) ≡ ok tt
unfolding check_new_subdomain
check_new_subdomain-check_subdomain_unique s p a id sub h = ground arith

Updated-SubdomainApart :
    (s : Settings) (u : User) (tunnel_id : ℕ) (f : TunnelUpdate) (p p' : Panel) (row : Tunnel)
    (c : Updated s u tunnel_id f p p' row)
    → HostsOk p
    → (sub : Patch Text) → f.subdomain ≡ sub
    → All (λ t. t.id ≢ tunnel_id → SubdomainApart (owning_team p) t row) p.tunnels
Updated-SubdomainApart s u tunnel_id f p p' row c ok_p unset e =
    let k = set_fields-Kept f c.port c.old row c.written in
    same_subdomain-Apart p tunnel_id c.old row p.tunnels (rw k.agent_id refl)
      (k.subdomain ∙ ap (λ x. patched x c.old.subdomain) e)
      (Pairs-others (λ t. t.id) (SubdomainApart (owning_team p))
        (SubdomainApart-comm (owning_team p)) tunnel_id p.tunnels c.old ok_p.subdomains c.found)
Updated-SubdomainApart s u tunnel_id f p p' row c ok_p (given sub) e =
    let k = set_fields-Kept f c.port c.old row c.written in
    let free =
      check_new_subdomain-check_subdomain_unique s p c.agent c.old.id sub
        (sym (ap (check_new_subdomain s p c.agent c.old.id) e) ∙ c.subdomain_free) in
    others-excluded tunnel_id (λ t. SubdomainApart (owning_team p) t row) p.tunnels
      (rw (find-key (λ t. t.id) tunnel_id p.tunnels c.old c.found) at (
        subdomain-Apart p sub c.agent.team_id (some c.old.id) row (rw (k.agent_id, c.owner) refl)
          (k.subdomain ∙ ap (λ x. patched x c.old.subdomain) e) free))

-- If the ids of the tunnels are distinct, no two tunnels of a team have the same subdomain and no
-- two tunnels have a custom domain in common, this still holds after an update that succeeds.
pub update_tunnel-HostsOk :
    (s : Settings) (u : User) (tunnel_id : ℕ) (f : TunnelUpdate) (p p' : Panel) (row : Tunnel)
    → HostsOk p
    → update_tunnel s u tunnel_id f p ≡ ok (p', row)
    → HostsOk p'
update_tunnel-HostsOk s u tunnel_id f p p' row ok_p h = rw c.state (
    HostsOk-bump (set_tunnel p tunnel_id (λ _. row)) c.agent.id (record {
      ids =
          Pairs-update (λ t. t.id) (λ x y. x.id ≢ y.id) tunnel_id row p.tunnels ok_p.ids ok_p.ids
            (other-ids tunnel_id row.id p.tunnels
              (k.id ∙ find-key (λ t. t.id) tunnel_id p.tunnels c.old c.found));
      subdomains =
          Pairs-update (λ t. t.id) (SubdomainApart (owning_team p)) tunnel_id row p.tunnels ok_p.ids
            ok_p.subdomains
            (both_ways (λ t. t.id) (SubdomainApart (owning_team p))
              (SubdomainApart-comm (owning_team p)) tunnel_id p.tunnels row
              (Updated-SubdomainApart s u tunnel_id f p p' row c ok_p f.subdomain refl));
      domains =
          Pairs-update (λ t. t.id) DomainsApart tunnel_id row p.tunnels ok_p.ids ok_p.domains
            (both_ways (λ t. t.id) DomainsApart comm tunnel_id p.tunnels row
              (rw k.custom_domains (
                Pairs-others (λ t. t.id) DomainsApart comm tunnel_id p.tunnels c.old ok_p.domains
                  c.found)));
    }))
  where
    c : Updated s u tunnel_id f p p' row
    c = update_tunnel-Updated s u tunnel_id f p p' row h

    k : Kept f c.port c.old row
    k = set_fields-Kept f c.port c.old row c.written

    comm : (t v : Tunnel) → DomainsApart t v → DomainsApart v t
    comm t v = NoneShared-comm (owned_domains t.custom_domains) (owned_domains v.custom_domains)

-- If the ids of the tunnels are distinct, no two tunnels of a team have the same subdomain and no
-- two tunnels have a custom domain in common, this still holds after a deletion that succeeds.
pub delete_tunnel-HostsOk :
    (u : User) (tunnel_id : ℕ) (p p' : Panel)
    → HostsOk p
    → delete_tunnel u tunnel_id p ≡ ok p'
    → HostsOk p'
delete_tunnel-HostsOk u tunnel_id p p' ok_p h = rw c.state (
    HostsOk-bump (record p { tunnels = select (λ x. not (x.id == tunnel_id)) p.tunnels }) c.agent.id
      (record {
        ids = Pairs-select _ _ p.tunnels ok_p.ids;
        subdomains = Pairs-select _ _ p.tunnels ok_p.subdomains;
        domains = Pairs-select _ _ p.tunnels ok_p.domains;
      }))
  where
    c : Deleted u tunnel_id p p'
    c = delete_tunnel-Deleted u tunnel_id p p' h
