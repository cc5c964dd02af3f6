-- ===== src/Tunnels/Exclusive/Requests.antt =====
-- rctunnel-panel/rctunnel_panel/api/tunnels.py: the remote ports of a node after each request.
use rc_tunnel.Base.{
  >>=-elim, ap, ℕ, ◌≡◌, ◌≢◌, ◌⊎◌, refl, sym, ◌∙◌, false, not, Option, none, some, List, [], ◌∷◌,
  arith, ◌==◌, any, select, All, inl, inr, ok,
}
use rc_tunnel.Base.Relations.{
  Pairs-append, Pairs-select, Pairs-update, Pairs-others, both_ways, find-key,
}
use rc_tunnel.Settings.{Settings}
use rc_tunnel.Models.{Panel, User, Tunnel, set_tunnel}
use rc_tunnel.Schemas.{Patch, unset, given, TunnelCreate, TunnelUpdate}
use rc_tunnel.Tunnels.Ports.{allocate_port}
use rc_tunnel.Tunnels.Allocation.{allocate_port-free}
use rc_tunnel.Tunnels.Domains.{is_excluded}
use rc_tunnel.Tunnels.Handlers.{create_tunnel, update_tunnel, delete_tunnel, new_port, patched}
use rc_tunnel.Tunnels.Created.{Created, NewRow, create_tunnel-Created, new_tunnel-NewRow}
use rc_tunnel.Tunnels.Updated.{
  Updated, Deleted, Kept, update_tunnel-Updated, delete_tunnel-Deleted, set_fields-Kept,
}
use rc_tunnel.Tunnels.Exclusive.{
  PortsOk, Apart, node_of, PortsOk-bump, fresh-ids, choose_port-cases, row-Apart, All-kept,
  not_port-Apart, Apart-comm,
}

Created-Apart :
    (s : Settings) (u : User) (agent_id : ℕ) (body : TunnelCreate) (id now : ℕ) (p p' : Panel)
    (row : Tunnel) (c : Created s u agent_id body id now p p' row)
    → All (λ t. Apart (node_of p) t row) p.tunnels
Created-Apart s u agent_id body id now p p' row c =
    elim (choose_port-cases s p c.agent.node_id body c.port c.chosen) [
      | inl e ↦ not_port-Apart (node_of p) row p.tunnels (rw r.type_lem e)
      | inr (q, at_q, e) ↦
          All-kept (λ t. Apart (node_of p) t row) p.tunnels
            (row-Apart s p c.agent.node_id q body.remote_port none row
              (rw (r.agent_id_lem, c.found) refl) (r.remote_port_lem ∙ e) at_q)
    ]
  where
    r : NewRow agent_id body id c.port row
    r = new_tunnel-NewRow agent_id body id now c.port row c.row_eq

-- If the ids of the tunnels are distinct and no two tcp or udp tunnels of one node have the same
-- remote port, and a tunnel with a new id is created, this still holds, whatever the request.
pub create_tunnel-PortsOk :
    (s : Settings) (u : User) (agent_id : ℕ) (body : TunnelCreate) (id now : ℕ) (p p' : Panel)
    (row : Tunnel)
    → any (λ t. t.id == id) p.tunnels ≡ false
    → PortsOk p
    → create_tunnel s u agent_id body id now p ≡ ok (p', row)
    → PortsOk p'
create_tunnel-PortsOk s u agent_id body id now p p' row fresh ok_p h = rw c.state (
    PortsOk-bump _ agent_id (record {
      ids = Pairs-append _ p.tunnels row ok_p.ids (rw r.id_lem (fresh-ids id p.tunnels fresh));
      apart =
          Pairs-append _ p.tunnels row ok_p.apart
            (Created-Apart s u agent_id body id now p p' row c);
    }))
  where
    c : Created s u agent_id body id now p p' row
    c = create_tunnel-Created s u agent_id body id now p p' row h

    r : NewRow agent_id body id c.port row
    r = new_tunnel-NewRow agent_id body id now c.port row c.row_eq

-- the port that an update writes: one that was allocated, or the old one, or none
new_port-cases :
    (s : Settings) (p : Panel) (n id : ℕ) (f port : Patch ℕ)
    → new_port s p n id f ≡ ok port
    → ((q : ℕ) × (allocate_port s p n (some q) (some id) ≡ ok q) × (port ≡ given (some q)))
      ⊎ ((port ≡ unset) ⊎ (port ≡ given none))
unfolding new_port
new_port-cases s p n id unset port h = inr (inl (cc))
new_port-cases s p n id (given none) port h = inr (inr (cc))
new_port-cases s p n id (given (some q)) port h =
    >>=-elim (allocate_port s p n (some q) (some id)) (λ q'. ok (given (some q'))) h
      λ q' at_q k.
        let same : q ≡ q' = (allocate_port-free s p n (some id) (some q) q' at_q).1.0 in
        inl (q', (rw same at at_q), (cc))

pub others-excluded :
    (id : ℕ) (P : Tunnel → Type 0) (ts : List Tunnel)
    → All (λ t. is_excluded (some id) t ≡ false → P t) ts
    → All (λ t. t.id ≢ id → P t) ts
others-excluded id P [] h = tt
others-excluded id P (t ∷ ts) (ht, h) = (λ other. ht (ground arith), others-excluded id P ts h)

-- a row that differs from another in no column that matters
same-Apart :
    (node : Tunnel → Option ℕ) (k : ℕ) (old row : Tunnel) (ts : List Tunnel)
    → node row ≡ node old
    → row.type ≡ old.type
    → (row.remote_port ≡ old.remote_port) ⊎ (row.remote_port ≡ none)
    → All (λ t. t.id ≢ k → Apart node t old) ts
    → All (λ t. t.id ≢ k → Apart node t row) ts
same-Apart node k old row [] at_n at_type at_port h = tt
same-Apart node k old row (t ∷ ts) at_n at_type at_port (ht, h) =
    (λ other. one at_port (ht other), same-Apart node k old row ts at_n at_type at_port h)
  where
    one :
        (row.remote_port ≡ old.remote_port) ⊎ (row.remote_port ≡ none)
        → Apart node t old
        → Apart node t row
    one (inl e) a = rw (at_n, at_type, e) a
    one (inr e) a = rw e (ground arith)

Updated-Apart :
    (s : Settings) (u : User) (tunnel_id : ℕ) (f : TunnelUpdate) (p p' : Panel) (row : Tunnel)
    (c : Updated s u tunnel_id f p p' row)
    → PortsOk p
    → All (λ t. t.id ≢ tunnel_id → Apart (node_of p) t row) p.tunnels
Updated-Apart s u tunnel_id f p p' row c ok_p =
    elim (new_port-cases s p c.agent.node_id c.old.id f.remote_port c.port c.chosen) [
      | inl (q, at_q, e) ↦
          others-excluded tunnel_id (λ t. Apart (node_of p) t row) p.tunnels
            (rw (find-key (λ t. t.id) tunnel_id p.tunnels c.old c.found) at (
              row-Apart s p c.agent.node_id q (some q) (some c.old.id) row
                (rw (k.agent_id, c.owner) refl)
                (k.remote_port ∙ ap (λ x. patched x c.old.remote_port) e) at_q))
      | inr kept ↦
          same-Apart (node_of p) tunnel_id c.old row p.tunnels (rw k.agent_id refl) k.type
            (port_of kept)
            (Pairs-others (λ t. t.id) (Apart (node_of p)) (Apart-comm (node_of p)) tunnel_id
              p.tunnels c.old ok_p.apart c.found)
    ]
  where
    k : Kept f c.port c.old row
    k = set_fields-Kept f c.port c.old row c.written

    port_of :
        (c.port ≡ unset) ⊎ (c.port ≡ given none)
        → (row.remote_port ≡ c.old.remote_port) ⊎ (row.remote_port ≡ none)
    port_of (inl e) = inl (k.remote_port ∙ ap (λ x. patched x c.old.remote_port) e)
    port_of (inr e) = inr (k.remote_port ∙ ap (λ x. patched x c.old.remote_port) e)

pub other-ids :
    (k n : ℕ) (ts : List Tunnel) → n ≡ k → All (λ t. t.id ≢ k → (t.id ≢ n) × (n ≢ t.id)) ts
other-ids k n [] e = tt
other-ids k n (t ∷ ts) e =
    (λ other. (λ q. other (q ∙ e), λ q. other (sym q ∙ e)), other-ids k n ts e)

-- If the ids of the tunnels are distinct and no two tcp or udp tunnels of one node have the same
-- remote port, this still holds after an update that succeeds, whatever columns it sets.
pub update_tunnel-PortsOk :
    (s : Settings) (u : User) (tunnel_id : ℕ) (f : TunnelUpdate) (p p' : Panel) (row : Tunnel)
    → PortsOk p
    → update_tunnel s u tunnel_id f p ≡ ok (p', row)
    → PortsOk p'
update_tunnel-PortsOk s u tunnel_id f p p' row ok_p h = rw c.state (
    PortsOk-bump (set_tunnel p tunnel_id (λ _. row)) c.agent.id (record {
      ids =
          Pairs-update (λ t. t.id) (λ x y. x.id ≢ y.id) tunnel_id row p.tunnels ok_p.ids ok_p.ids
            (other-ids tunnel_id row.id p.tunnels
              (k.id ∙ find-key (λ t. t.id) tunnel_id p.tunnels c.old c.found));
      apart =
          Pairs-update (λ t. t.id) (Apart (node_of p)) tunnel_id row p.tunnels ok_p.ids ok_p.apart
            (both_ways (λ t. t.id) (Apart (node_of p)) (Apart-comm (node_of p)) tunnel_id p.tunnels
              row (Updated-Apart s u tunnel_id f p p' row c ok_p));
    }))
  where
    c : Updated s u tunnel_id f p p' row
    c = update_tunnel-Updated s u tunnel_id f p p' row h

    k : Kept f c.port c.old row
    k = set_fields-Kept f c.port c.old row c.written

-- If the ids of the tunnels are distinct and no two tcp or udp tunnels of one node have the same
-- remote port, this still holds after a deletion that succeeds.
pub delete_tunnel-PortsOk :
    (u : User) (tunnel_id : ℕ) (p p' : Panel)
    → PortsOk p
    → delete_tunnel u tunnel_id p ≡ ok p'
    → PortsOk p'
delete_tunnel-PortsOk u tunnel_id p p' ok_p h = rw c.state (
    PortsOk-bump (record p { tunnels = select (λ x. not (x.id == tunnel_id)) p.tunnels }) c.agent.id
      (record {
        ids = Pairs-select _ _ p.tunnels ok_p.ids;
        apart = Pairs-select _ _ p.tunnels ok_p.apart;
      }))
  where
    c : Deleted u tunnel_id p p'
    c = delete_tunnel-Deleted u tunnel_id p p' h
