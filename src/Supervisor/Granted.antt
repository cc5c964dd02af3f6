-- ===== src/Supervisor/Granted.antt =====
-- rctunnel-panel/agent/rctunnel_agent.py, with control/protocol.py and grant.py of the panel: the
-- proxies that the agent asks the engine for, against the grant that it hands over with them.
use rc_tunnel.Base.{
  ℕ, zero, suc, ◌+◌, ◌≤◌, ◌≡◌, refl, ◌∙◌, true, false, Option, none, some, List, [], ◌∷◌, ◌++◌, map,
  All, Perhaps, Perhaps-weaken, All-weaken, text_eq, text_eq_refl, any-append, Bool-cases, inl, inr,
  arith, Text, Lacks, text_member, member, if◌then◌else◌,
}
use rc_tunnel.Models.{
  Agent, Node, Tunnel, TunnelType, tcp, udp, http, https, is_domain_type, is_port_type,
}
use rc_tunnel.Grant.{Grant, granted, verify, max_int64, grant_ttl, allow_port, allow_host}
use rc_tunnel.Grant.RoundTrip.{scope, Plain, allow_port-scope, allow_host-scope}
use rc_tunnel.Protocol.{
  TunnelPayload, config_payload, agent_cn, suffix_of, custom_fqdns, grant_ports, grant_hosts,
  out_tunnels, domainize, tunnel_payload,
}
use rc_tunnel.Protocol.Scope.{
  trimmed, tunnel_ports, tunnel_hosts, grant_hosts-out_tunnels, grant_ports-out_tunnels,
}
use rc_tunnel.Protocol.EndToEnd.{PlainTunnel, subdomains-Plain, config_payload-scope}
use rc_tunnel.Vhosts.Lookup.{member-lower}
use rc_tunnel.Supervisor.Bare.{Bare, trimmed-Bare, scope-Bare}
use rc_tunnel.Supervisor.Render.{
  ProxySpec, Paths, render_proxy, render_rctc, spec_port, spec_domains, spec_subdomain,
}

-- the engine lets the proxy's port and names through, and is asked for no subdomain of its own
abbrev pub WithinScope : Grant → ProxySpec → Type 0
WithinScope g s =
    Perhaps (λ n. allow_port g n ≡ true) s.remote_port
    × Perhaps (All (λ h. allow_host g h ≡ true)) s.custom_domains
    × (s.subdomain ≡ none)

-- the same of the payload that a proxy is made from, and the lists that the grant is made from
Listed : List ℕ → List Text → TunnelPayload → Type 0
Listed ports hosts t =
    Perhaps (λ n. member n ports ≡ true) (spec_port t.type t.remote_port)
    × Perhaps (All (λ h. text_member h hosts ≡ true)) (spec_domains t.type t.custom_domains)

member-append : (xs ys : List Text) → All (λ h. text_member h (xs ++ ys) ≡ true) xs
member-append [] ys = tt
member-append (x ∷ xs) ys =
    (rw (text_eq_refl x) refl, All-weaken _ _ xs (λ h k. ground arith) (member-append xs ys))

spec_port-member :
    (type : TunnelType) (port : Option ℕ) (rest : List ℕ)
    → Perhaps
        (λ n.
          member n (elim port [
            | none ↦ rest
            | some zero ↦ rest
            | some (suc m) ↦ if is_port_type type then suc m ∷ rest else rest
          ])
          ≡ true)
        (spec_port type port)
spec_port-member tcp (some (suc n)) rest = ground arith
spec_port-member udp (some (suc n)) rest = ground arith
spec_port-member _ _ rest = tt

spec_domains-member :
    (type : TunnelType) (custom : Option Text) (rest : List Text)
    → Perhaps
        (All (λ h.
          text_member h ((if is_domain_type type then custom_fqdns custom else []) ++ rest) ≡ true))
        (spec_domains type custom)
spec_domains-member http none rest = tt
spec_domains-member http (some []) rest = tt
spec_domains-member http (some (c ∷ s)) rest = member-append (custom_fqdns (some (c ∷ s))) rest
spec_domains-member https none rest = tt
spec_domains-member https (some []) rest = tt
spec_domains-member https (some (c ∷ s)) rest = member-append (custom_fqdns (some (c ∷ s))) rest
spec_domains-member _ _ rest = tt

Listed-All : (tps : List TunnelPayload) → All (Listed (grant_ports tps) (grant_hosts tps)) tps
unfolding Listed grant_ports grant_hosts
Listed-All [] = tt
Listed-All (t ∷ tps) = (
  (
    spec_port-member t.type t.remote_port (grant_ports tps),
    spec_domains-member t.type t.custom_domains (grant_hosts tps),
  ),
  All-weaken _ _ tps
      (λ u k. (
        Perhaps-weaken _ _ (spec_port u.type u.remote_port) (λ n m. ground arith) k.0,
        Perhaps-weaken _ _ (spec_domains u.type u.custom_domains)
            (λ hs ms.
              All-weaken _ _ hs
                (λ h m. ground (
                  arith,
                  any-append (text_eq h)
                      (if is_domain_type t.type then custom_fqdns t.custom_domains else [])
                      (grant_hosts tps),
                ))
                ms)
            k.1,
      ))
      (Listed-All tps),
)

spec_subdomain-none : (type : TunnelType) → spec_subdomain type none ≡ none
spec_subdomain-none http = refl
spec_subdomain-none https = refl
spec_subdomain-none tcp = refl
spec_subdomain-none udp = refl

spec_subdomain-port :
    (type : TunnelType) (sub : Option Text)
    → is_domain_type type ≡ false
    → spec_subdomain type sub ≡ none
spec_subdomain-port tcp sub h = refl
spec_subdomain-port udp sub h = refl
spec_subdomain-port http sub h = cc
spec_subdomain-port https sub h = cc

spec_subdomain-domainize :
    (p : TunnelPayload) (host : Text) (label : Option Text)
    → spec_subdomain (domainize p host label).type (domainize p host label).subdomain ≡ none
unfolding domainize
spec_subdomain-domainize p host label = elim (Bool-cases (is_domain_type p.type)) [
  | inl e ↦ rw e (spec_subdomain-none p.type)
  | inr e ↦ rw e (spec_subdomain-port p.type p.subdomain e)
]

subdomain-out_tunnels :
    (node : Node) (ts : List Tunnel) (label : Option Text)
    → All (λ t. spec_subdomain t.type t.subdomain ≡ none) (out_tunnels node ts label)
unfolding out_tunnels
subdomain-out_tunnels node [] label = tt
subdomain-out_tunnels node (t ∷ ts) label = elim (Bool-cases t.enabled) [
  | inl e ↦ rw e (
    spec_subdomain-domainize (tunnel_payload t) node.subdomain_host label,
    subdomain-out_tunnels node ts label,
  )
  | inr e ↦ rw e (subdomain-out_tunnels node ts label)
]

Listed→WithinScope :
    (detected cn : Text) (ports : List ℕ) (hosts : List Text) (tps : List TunnelPayload)
    → All Bare hosts
    → All (Listed ports hosts) tps
    → All (λ t. spec_subdomain t.type t.subdomain ≡ none) tps
    → All (WithinScope (scope cn ports hosts)) (map (render_proxy detected) tps)
unfolding Listed render_proxy
Listed→WithinScope detected cn ports hosts [] b k s = tt
Listed→WithinScope detected cn ports hosts (t ∷ tps) b (kt, k) (st, s) = (
  (
    Perhaps-weaken _ _ (spec_port t.type t.remote_port)
        (λ n m. allow_port-scope cn ports hosts n ∙ m) kt.0,
    Perhaps-weaken _ _ (spec_domains t.type t.custom_domains)
        (λ hs ms.
          All-weaken _ _ hs
            (λ h m.
              allow_host-scope cn ports hosts h ∙ rw (scope-Bare hosts b) (member-lower h hosts m))
            ms)
        kt.1,
    st,
  ),
  Listed→WithinScope detected cn ports hosts tps b k s,
)

-- The configuration that an agent renders for its engine client asks for nothing that the grant in
-- it does not allow: until the grant expires the engine accepts it from that agent, and with the
-- scope that it reads out of it every remote port and every custom domain of every proxy is
-- allowed, and no proxy asks for a subdomain. The secret is not empty, the printed hash has no
-- `|`, neither `,` nor `|` stands in the node's host and the team's label nor in a subdomain, no
-- `|` in a custom domain, and the ports and the expiry fit 64 bits.
pub render_rctc-WithinScope :
    (hmac : Text → Text → Text)
    → ((key msg : Text) → Lacks b'|' (hmac key msg))
    → (agent : Agent) (node : Node) (ts : List Tunnel) (label : Option Text) (workconn_port c : ℕ)
      (secret : Text) (now later : ℕ) (paths : Paths) (detected : Text)
    → Plain (suffix_of label node.subdomain_host)
    → All PlainTunnel ts
    → All (λ n. n ≤ max_int64) (tunnel_ports ts)
    → now + grant_ttl ≤ max_int64
    → later ≤ now + grant_ttl
    → let cfg =
        render_rctc paths detected
          (config_payload hmac agent node ts label workconn_port (c ∷ secret) now) in
      (g : Grant) × (verify hmac (c ∷ secret) cfg.grant (agent_cn agent.id) later ≡ granted g)
      × All (WithinScope g) cfg.proxies
unfolding render_rctc config_payload
render_rctc-WithinScope hmac printable agent node ts label workconn_port c secret now later paths
      detected l k fit soon fresh =
    let suffix = suffix_of label node.subdomain_host in
    let hosts = trimmed (tunnel_hosts suffix ts) in
    let tps = out_tunnels node ts label in
    (
      scope (agent_cn agent.id) (tunnel_ports ts) hosts,
      config_payload-scope hmac printable agent node ts label workconn_port c secret now later l k
            fit soon
          ∙ ground arith,
      Listed→WithinScope detected (agent_cn agent.id) (tunnel_ports ts) hosts tps
          (trimmed-Bare (tunnel_hosts suffix ts))
          (rw
            (
              ← grant_ports-out_tunnels node ts label,
              ← grant_hosts-out_tunnels node ts label (subdomains-Plain ts k) l.0,
            )
            (Listed-All tps))
          (subdomain-out_tunnels node ts label),
    )
