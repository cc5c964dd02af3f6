-- ===== src/Tunnels/Exclusive/Histories.antt =====
-- rctunnel-panel/rctunnel_panel/api/tunnels.py: any number of requests for tunnels, one after
-- another. What is refused is rolled back, as is a row whose id is taken.
use rc_tunnel.Base.{
  ℕ, ◌≡◌, false, ok, List, [], ◌∷◌, ◌==◌, any, if◌then◌else◌, row_or, state_or, row_or-keeps,
  state_or-keeps, Bool-cases, inl, inr,
}
use rc_tunnel.Settings.{Settings}
use rc_tunnel.Models.{Panel, User, Tunnel}
use rc_tunnel.Schemas.{TunnelCreate, TunnelUpdate}
use rc_tunnel.Tunnels.Handlers.{create_tunnel, update_tunnel, delete_tunnel}
use rc_tunnel.Tunnels.Exclusive.{PortsOk}
use rc_tunnel.Tunnels.Exclusive.Requests.{
  create_tunnel-PortsOk, update_tunnel-PortsOk, delete_tunnel-PortsOk,
}

pub data TunnelRequest : Type 0 where
  posts : User → ℕ → TunnelCreate → ℕ → ℕ → TunnelRequest
  patches : User → ℕ → TunnelUpdate → TunnelRequest
  deletes : User → ℕ → TunnelRequest

module _ (s : Settings) where
  unfoldable pub tunnel_request : TunnelRequest → Panel → Panel
  tunnel_request (posts u agent_id body id now) p =
      if any (λ t. t.id == id) p.tunnels
      then p
      else row_or p (create_tunnel s u agent_id body id now p)
  tunnel_request (patches u id f) p = row_or p (update_tunnel s u id f p)
  tunnel_request (deletes u id) p = state_or p (delete_tunnel u id p)

  unfoldable pub tunnel_requests : List TunnelRequest → Panel → Panel
  unfolding tunnel_request
  tunnel_requests [] p = p
  tunnel_requests (r ∷ rs) p = tunnel_requests rs (tunnel_request r p)

-- What each request that succeeds keeps, any number of requests keep.
module _ (s : Settings) (P : Panel → Type 0)
    (creates : (u : User) (agent_id : ℕ) (body : TunnelCreate) (id now : ℕ) (p p' : Panel)
        (row : Tunnel)
      → any (λ t. t.id == id) p.tunnels ≡ false
      → P p
      → create_tunnel s u agent_id body id now p ≡ ok (p', row)
      → P p')
    (updates : (u : User) (id : ℕ) (f : TunnelUpdate) (p p' : Panel) (row : Tunnel)
      → P p
      → update_tunnel s u id f p ≡ ok (p', row)
      → P p')
    (removes : (u : User) (id : ℕ) (p p' : Panel) → P p → delete_tunnel u id p ≡ ok p' → P p') where
  tunnel_request-keeps : (r : TunnelRequest) (p : Panel) → P p → P (tunnel_request s r p)
  unfolding tunnel_request
  tunnel_request-keeps (posts u agent_id body id now) p k =
      elim (Bool-cases (any (λ t. t.id == id) p.tunnels)) [
        | inl taken ↦ rw taken k
        | inr fresh ↦ rw fresh (
            row_or-keeps P p (create_tunnel s u agent_id body id now p) k
              (λ p' row h. creates u agent_id body id now p p' row fresh k h))
      ]
  tunnel_request-keeps (patches u id f) p k =
      row_or-keeps P p (update_tunnel s u id f p) k (λ p' row h. updates u id f p p' row k h)
  tunnel_request-keeps (deletes u id) p k =
      state_or-keeps P p (delete_tunnel u id p) k (λ p' h. removes u id p p' k h)

  pub tunnel_requests-keeps :
      (rs : List TunnelRequest) (p : Panel) → P p → P (tunnel_requests s rs p)
  unfolding tunnel_requests
  tunnel_requests-keeps [] p k = k
  tunnel_requests-keeps (r ∷ rs) p k =
      tunnel_requests-keeps rs (tunnel_request s r p) (tunnel_request-keeps r p k)

-- If the ids of the tunnels are distinct and no two tcp or udp tunnels of one node have the same
-- remote port, this still holds after any number of requests that create, change and delete
-- tunnels, by any users. What is refused is rolled back, and a row whose id is taken is not
-- written.
pub tunnel_requests-PortsOk :
    (s : Settings) (rs : List TunnelRequest) (p : Panel)
    → PortsOk p
    → PortsOk (tunnel_requests s rs p)
tunnel_requests-PortsOk s =
    tunnel_requests-keeps s PortsOk (create_tunnel-PortsOk s) (update_tunnel-PortsOk s)
      delete_tunnel-PortsOk
