-- ===== src/Tunnels/Exclusive.antt =====
-- rctunnel-panel/rctunnel_panel/api/tunnels.py: what it means that tunnels of a node hold different
-- remote ports, and what each part of a request says about it.
pub mod Requests
pub mod Histories
use rc_tunnel.Base.{
  >>=-elim, ◌>>=◌, ◌⊎◌, ℕ, zero, suc, ◌+◌, ◌-◌, ◌≤◌, ◌<◌, ◌≡◌, ◌≢◌, refl, sym, ap, subst, fun_ext,
  Bool, true, false, not, ◌&&◌, ◌||◌, Option, none, some, List, [], ◌∷◌, ◌++◌, arith, ◌==◌, leb,
  both_eq, member, any, find, update, select, All, Pairs, Bool-cases, Option-cases, inl, inr,
  Result, ok,
}
use rc_tunnel.Base.Relations.{
  Distinct, Pairs-append, Pairs-select, Pairs-update, find-key, find-All,
}
use rc_tunnel.Settings.{Settings}
use rc_tunnel.Models.{
  Panel, User, Agent, Tunnel, get_agent, get_tunnel, set_agent, set_tunnel, is_port_type,
}
use rc_tunnel.Schemas.{Patch, unset, given, TunnelCreate, TunnelUpdate}
use rc_tunnel.Tunnels.Domains.{is_excluded}
use rc_tunnel.Tunnels.Allocation.{allocate_port-free}
use rc_tunnel.Tunnels.Ports.{
  on_node, counts_as_used, used_in, used_ports, first_free, or_conflict, allocate_port,
}
use rc_tunnel.Tunnels.Handlers.{
  bump, bump_row, choose_port, new_port, new_tunnel, patched, create_tunnel, update_tunnel,
  delete_tunnel,
}
use rc_tunnel.Tunnels.Created.{Created, create_tunnel-Created}
use rc_tunnel.Tunnels.Updated.{
  Updated, Deleted, Kept, update_tunnel-Updated, delete_tunnel-Deleted, set_fields-Kept,
}

abbrev pub node_id_of : Option Agent → Option ℕ
node_id_of none = none
node_id_of (some a) = some a.node_id

-- the node of a tunnel's agent
abbrev pub node_of : Panel → Tunnel → Option ℕ
node_of p t = node_id_of (get_agent p t.agent_id)

-- two tunnels that would listen on the same port of the same node
abbrev pub shares_port : (Tunnel → Option ℕ) → Tunnel → Tunnel → Bool
shares_port node t u =
    is_port_type t.type
    && is_port_type u.type
    && both_eq (node t) (node u)
    && both_eq t.remote_port u.remote_port

abbrev pub Apart : (Tunnel → Option ℕ) → Tunnel → Tunnel → Type 0
Apart node t u = shares_port node t u ≡ false

-- The ids of the tunnels are distinct, and no two tunnels share a port.
pub record PortsOk (p : Panel) : Type 0 where
  pub ids : Distinct (λ t. t.id) p.tunnels
  pub apart : Pairs (Apart (node_of p)) p.tunnels

both_eq_comm : (a b : Option ℕ) → both_eq a b ≡ both_eq b a
both_eq_comm a b = ground arith

pub Apart-comm : (node : Tunnel → Option ℕ) (t u : Tunnel) → Apart node t u → Apart node u t
Apart-comm node t u h =
    ground (arith, both_eq_comm (node t) (node u), both_eq_comm t.remote_port u.remote_port)

find-bump :
    (k id : ℕ) (rows : List Agent)
    → node_id_of (find (λ a. a.id == k) (update (λ a. a.id == id) bump_row rows))
      ≡ node_id_of (find (λ a. a.id == k) rows)
find-bump k id [] = refl
find-bump k id (a ∷ rows) = ground (arith, find-bump k id rows)

-- a bump of the generation moves no agent
pub node_of-bump : (p : Panel) (id : ℕ) → node_of (bump id p) ≡ node_of p
unfolding bump
node_of-bump p id = fun_ext (λ t. find-bump t.agent_id id p.agents)

on_node-eq : (p : Panel) (n : ℕ) (t : Tunnel) → on_node p n t ≡ both_eq (node_of p t) (some n)
unfolding on_node
on_node-eq p n t = ground arith

-- what it says that a port is not among the used ones
unused-All :
    (p : Panel) (n port : ℕ) (ex : Option ℕ) (ts : List Tunnel)
    → member port (used_in p n ex ts) ≡ false
    → All (λ t. (counts_as_used p n ex t && both_eq t.remote_port (some port)) ≡ false) ts
unfolding used_in
unused-All p n port ex [] h = tt
unused-All p n port ex (t ∷ ts) h = ground (arith, unused-All p n port ex ts)

unused-Apart :
    (p : Panel) (n port : ℕ) (ex : Option ℕ) (row : Tunnel) (ts : List Tunnel)
    → node_of p row ≡ some n
    → row.remote_port ≡ some port
    → All (λ t. (counts_as_used p n ex t && both_eq t.remote_port (some port)) ≡ false) ts
    → All (λ t. is_excluded ex t ≡ false → Apart (node_of p) t row) ts
unfolding counts_as_used
unused-Apart p n port ex row [] at_n at_port h = tt
unused-Apart p n port ex row (t ∷ ts) at_n at_port (ht, h) =
    (λ kept. one kept, unused-Apart p n port ex row ts at_n at_port h)
  where
    one : is_excluded ex t ≡ false → Apart (node_of p) t row
    one kept = rw (at_n, at_port) (ground (arith, on_node-eq p n t))

-- A row that is added, or that replaces another, clashes with none of the rest.
pub row-Apart :
    (s : Settings) (p : Panel) (n port : ℕ) (preferred ex : Option ℕ) (row : Tunnel)
    → node_of p row ≡ some n
    → row.remote_port ≡ some port
    → allocate_port s p n preferred ex ≡ ok port
    → All (λ t. is_excluded ex t ≡ false → Apart (node_of p) t row) p.tunnels
unfolding used_ports
row-Apart s p n port preferred ex row at_n at_port h =
    unused-Apart p n port ex row p.tunnels at_n at_port
      (unused-All p n port ex p.tunnels (allocate_port-free s p n ex preferred port h).0)

pub All-kept :
    (P : Tunnel → Type 0) (ts : List Tunnel)
    → All (λ t. is_excluded none t ≡ false → P t) ts
    → All P ts
All-kept P [] h = tt
All-kept P (t ∷ ts) (ht, h) = (ht refl, All-kept P ts h)

pub not_port-Apart :
    (node : Tunnel → Option ℕ) (row : Tunnel) (ts : List Tunnel)
    → is_port_type row.type ≡ false
    → All (λ t. Apart node t row) ts
not_port-Apart node row [] h = tt
not_port-Apart node row (t ∷ ts) h = (ground arith, not_port-Apart node row ts h)

pub PortsOk-bump : (p : Panel) (id : ℕ) → PortsOk p → PortsOk (bump id p)
PortsOk-bump p id h = record {
  ids = unfold bump in h.ids;
  apart =
      subst (λ node. Pairs (Apart node) (bump id p).tunnels) (sym (node_of-bump p id))
        (unfold bump in h.apart);
}

pub fresh-ids :
    (id : ℕ) (ts : List Tunnel) → any (λ t. t.id == id) ts ≡ false → All (λ t. t.id ≢ id) ts
fresh-ids id [] h = tt
fresh-ids id (t ∷ ts) h = ground (arith, fresh-ids id ts)

pub choose_port-cases :
    (s : Settings) (p : Panel) (n : ℕ) (body : TunnelCreate) (port : Option ℕ)
    → choose_port s p n body ≡ ok port
    → (is_port_type body.type ≡ false)
      ⊎ ((q : ℕ) × (allocate_port s p n body.remote_port none ≡ ok q) × (port ≡ some q))
unfolding choose_port
choose_port-cases s p n body port h = elim (Bool-cases (is_port_type body.type)) [
  | inl e ↦
      >>=-elim (allocate_port s p n body.remote_port none) (λ q. ok (some q))
        (let k = rw (choose_port, e) at h in k) λ q at_q k. inr (q, at_q, cc)
  | inr e ↦ inl e
]
