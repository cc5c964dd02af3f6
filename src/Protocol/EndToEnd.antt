-- ===== src/Protocol/EndToEnd.antt =====
-- From the tables to the engine: what `Verify` reads out of the grant in a configuration.
use rc_tunnel.Base.{
  ℕ, ◌+◌, ◌≤◌, ◌≡◌, ◌≢◌, refl, ◌∙◌, Option, List, [], ◌∷◌, All, All-append, arith, Text, Lacks,
  text_eq_refl, ltb, if◌then◌else◌, codes, str,
}
use rc_tunnel.Models.{Agent, Node, Tunnel}
use rc_tunnel.Grant.{granted, refused, expired, verify, max_int64, grant_ttl}
use rc_tunnel.Grant.Decimal.{str-IsDigit, IsDigit-Lacks}
use rc_tunnel.Grant.RoundTrip.{scope, verify-sign, Plain}
use rc_tunnel.Protocol.{config_payload, agent_cn, suffix_of, fqdns_of}
use rc_tunnel.Protocol.Scope.{
  Without, trimmed, tunnel_hosts, tunnel_ports, grant_hosts-out_tunnels, grant_ports-out_tunnels,
  fqdns_of-separator, fqdns_of-Lacks, trimmed-Lacks,
}

-- what the separators of a grant must not occur in
abbrev pub PlainTunnel : Tunnel → Type 0
PlainTunnel t =
    (Without b',' t.subdomain) × (Without b'|' t.subdomain) × (Without b'|' t.custom_domains)

tunnel_hosts-Lacks :
    (c : ℕ) (suffix : Text) (ts : List Tunnel)
    → All (λ t. All (Lacks c) (fqdns_of t.subdomain t.custom_domains suffix)) ts
    → All (Lacks c) (tunnel_hosts suffix ts)
unfolding tunnel_hosts
tunnel_hosts-Lacks c suffix [] k = tt
tunnel_hosts-Lacks c suffix (t ∷ ts) (kt, k) = ground (
  arith,
  tunnel_hosts-Lacks c suffix ts k,
  All-append (Lacks c) (fqdns_of t.subdomain t.custom_domains suffix) (tunnel_hosts suffix ts) kt
      (tunnel_hosts-Lacks c suffix ts k),
)

comma-free :
    (suffix : Text) (ts : List Tunnel)
    → Lacks b',' suffix
    → All PlainTunnel ts
    → All (λ t. All (Lacks b',') (fqdns_of t.subdomain t.custom_domains suffix)) ts
comma-free suffix [] l k = tt
comma-free suffix (t ∷ ts) l (kt, k) =
    (fqdns_of-separator t.subdomain t.custom_domains suffix kt.0 l, comma-free suffix ts l k)

bar-free :
    (suffix : Text) (ts : List Tunnel)
    → Lacks b'|' suffix
    → All PlainTunnel ts
    → All (λ t. All (Lacks b'|') (fqdns_of t.subdomain t.custom_domains suffix)) ts
bar-free suffix [] l k = tt
bar-free suffix (t ∷ ts) l (kt, k) = (
  fqdns_of-Lacks b'|' t.subdomain t.custom_domains suffix (omega arith) kt.1 kt.2 l,
  bar-free suffix ts l k,
)

both-Plain : (hs : List Text) → All (Lacks b',') hs → All (Lacks b'|') hs → All Plain hs
both-Plain [] k l = tt
both-Plain (h ∷ hs) (kh, k) (lh, l) = ((kh, lh), both-Plain hs k l)

hosts-Plain :
    (suffix : Text) (ts : List Tunnel)
    → Plain suffix
    → All PlainTunnel ts
    → All Plain (trimmed (tunnel_hosts suffix ts))
hosts-Plain suffix ts l k =
    both-Plain (trimmed (tunnel_hosts suffix ts))
      (trimmed-Lacks b',' _ (tunnel_hosts-Lacks b',' suffix ts (comma-free suffix ts l.0 k)))
      (trimmed-Lacks b'|' _ (tunnel_hosts-Lacks b'|' suffix ts (bar-free suffix ts l.1 k)))

pub subdomains-Plain :
    (ts : List Tunnel) → All PlainTunnel ts → All (λ t. Without b',' t.subdomain) ts
subdomains-Plain [] k = tt
subdomains-Plain (t ∷ ts) (kt, k) = (kt.0, subdomains-Plain ts k)

agent_cn-Lacks : (id : ℕ) → Lacks b'|' (agent_cn id)
unfolding agent_cn
agent_cn-Lacks id =
    All-append (λ d. d ≢ b'|') (codes "agent.") (str id) (omega arith)
      (IsDigit-Lacks b'|' (str id) (λ d. omega arith) (str-IsDigit id))

-- The engine accepts the grant of a configuration from the agent it was made for until it expires,
-- refuses it as expired after that, and reads out of it the ports of that agent's enabled tcp and
-- udp tunnels and the names of its enabled http and https tunnels, and nothing else. The secret is
-- not empty, the printed hash has no `|`, neither `,` nor `|` stands in the node's host and the
-- team's label nor in a subdomain, no `|` in a custom domain, and the ports and the expiry fit 64
-- bits.
pub config_payload-scope :
    (hmac : Text → Text → Text)
    → ((key msg : Text) → Lacks b'|' (hmac key msg))
    → (agent : Agent) (node : Node) (ts : List Tunnel) (label : Option Text) (workconn_port c : ℕ)
      (secret : Text) (now later : ℕ)
    → Plain (suffix_of label node.subdomain_host)
    → All PlainTunnel ts
    → All (λ n. n ≤ max_int64) (tunnel_ports ts)
    → now + grant_ttl ≤ max_int64
    → verify hmac
        (c ∷ secret)
        (config_payload hmac agent node ts label workconn_port (c ∷ secret) now).grant
        (agent_cn agent.id)
        later
      ≡ (if ltb (now + grant_ttl) later
          then refused expired
          else granted (
              scope
                (agent_cn agent.id)
                (tunnel_ports ts)
                (trimmed (tunnel_hosts (suffix_of label node.subdomain_host) ts))))
unfolding config_payload
config_payload-scope hmac printable agent node ts label workconn_port c secret now later l k fit
      soon =
    let suffix = suffix_of label node.subdomain_host in
    rw
      (
        grant_hosts-out_tunnels node ts label (subdomains-Plain ts k) l.0,
        grant_ports-out_tunnels node ts label,
      )
      (verify-sign hmac printable (c ∷ secret) (agent_cn agent.id) (tunnel_ports ts)
          (trimmed (tunnel_hosts suffix ts)) now grant_ttl (agent_cn-Lacks agent.id) fit
          (hosts-Plain suffix ts l k) soon (agent_cn agent.id) later
        ∙ rw (text_eq_refl (agent_cn agent.id)) refl)
