-- ===== src/Protocol/Scope.antt =====
-- rctunnel-panel/rctunnel_panel/control/protocol.py: the scope of the grant in a configuration,
-- against the tunnels it is made from.
use rc_tunnel.Base.{
  ℕ, zero, suc, ◌≡◌, ◌≢◌, refl, ap, ◌∙◌, ◌&&◌, Option, none, some, List, [], ◌∷◌, ◌++◌, map, select,
  All, All-append, Bool-cases, inl, inr, arith, Text, Lacks, strip, split, join, if◌then◌else◌,
}
use rc_tunnel.Base.Splitting.{split-join, split-separator, split-All, strip-All}
use rc_tunnel.Models.{Node, Tunnel, is_domain_type, is_port_type}
use rc_tunnel.Grant.{is_nonempty}
use rc_tunnel.Protocol.{
  tunnel_payload, suffix_of, own_fqdn, custom_fqdns, stripped, fqdns_of, joined, domainize,
  grant_ports, grant_hosts, out_tunnels,
}

-- the names that an enabled http or https tunnel stands for
unfoldable pub tunnel_hosts : Text → List Tunnel → List Text
tunnel_hosts suffix [] = []
tunnel_hosts suffix (t ∷ ts) =
    let rest = tunnel_hosts suffix ts in
    if t.enabled && is_domain_type t.type
    then fqdns_of t.subdomain t.custom_domains suffix ++ rest
    else rest

-- `h.strip()` of each, without those that are blank
abbrev pub trimmed : List Text → List Text
trimmed hs = select is_nonempty (map strip hs)

trimmed-append : (gs hs : List Text) → trimmed (gs ++ hs) ≡ trimmed gs ++ trimmed hs
trimmed-append [] hs = refl
trimmed-append (g ∷ gs) hs = ground (arith, trimmed-append gs hs)

custom_fqdns-stripped : (s : Text) → custom_fqdns (some s) ≡ stripped s
unfolding custom_fqdns split
custom_fqdns-stripped [] = refl
custom_fqdns-stripped (c ∷ s) = refl

custom_fqdns-joined : (fs : List Text) → All (Lacks b',') fs → custom_fqdns (joined fs) ≡ trimmed fs
unfolding joined
custom_fqdns-joined [] k = unfold custom_fqdns in refl
custom_fqdns-joined (f ∷ fs) k =
    custom_fqdns-stripped (join b',' (f ∷ fs))
    ∙ (unfold stripped in ap trimmed (split-join b',' f fs k))

-- a code point that does not stand in a text, which may be missing
abbrev pub Without : ℕ → Option Text → Type 0
Without c none = Unit
Without c (some s) = Lacks c s

pub trimmed-Lacks : (c : ℕ) (hs : List Text) → All (Lacks c) hs → All (Lacks c) (trimmed hs)
trimmed-Lacks c [] k = tt
trimmed-Lacks c (h ∷ hs) (kh, k) = elim (Bool-cases (is_nonempty (strip h))) [
  | inl e ↦ rw e (strip-All (λ d. d ≢ c) h kh, trimmed-Lacks c hs k)
  | inr e ↦ rw e (trimmed-Lacks c hs k)
]

custom_fqdns-separator : (custom : Option Text) → All (Lacks b',') (custom_fqdns custom)
unfolding custom_fqdns
custom_fqdns-separator none = tt
custom_fqdns-separator (some []) = tt
custom_fqdns-separator (some (c ∷ s)) =
    trimmed-Lacks b',' (split b',' (c ∷ s)) (split-separator b',' (c ∷ s))

custom_fqdns-Lacks :
    (c : ℕ) (custom : Option Text) → Without c custom → All (Lacks c) (custom_fqdns custom)
unfolding custom_fqdns
custom_fqdns-Lacks c none k = tt
custom_fqdns-Lacks c (some []) k = tt
custom_fqdns-Lacks c (some (d ∷ s)) k =
    trimmed-Lacks c (split b',' (d ∷ s)) (split-All (λ e. e ≢ c) b',' (d ∷ s) k)

own_fqdn-Lacks :
    (c : ℕ) (subdomain : Option Text) (suffix : Text)
    → b'.' ≢ c
    → Without c subdomain
    → Lacks c suffix
    → All (Lacks c) (own_fqdn subdomain suffix)
unfolding own_fqdn
own_fqdn-Lacks c none suffix dot k l = tt
own_fqdn-Lacks c (some []) suffix dot k l = tt
own_fqdn-Lacks c (some (d ∷ sub)) suffix dot k l =
    (All-append (λ e. e ≢ c) (d ∷ sub) (b'.' ∷ suffix) k (dot, l), tt)

pub fqdns_of-separator :
    (subdomain custom : Option Text) (suffix : Text)
    → Without b',' subdomain
    → Lacks b',' suffix
    → All (Lacks b',') (fqdns_of subdomain custom suffix)
unfolding fqdns_of
fqdns_of-separator subdomain custom suffix k l =
    All-append (Lacks b',') (own_fqdn subdomain suffix) (custom_fqdns custom)
      (own_fqdn-Lacks b',' subdomain suffix (omega arith) k l) (custom_fqdns-separator custom)

pub fqdns_of-Lacks :
    (c : ℕ) (subdomain custom : Option Text) (suffix : Text)
    → b'.' ≢ c
    → Without c subdomain
    → Without c custom
    → Lacks c suffix
    → All (Lacks c) (fqdns_of subdomain custom suffix)
unfolding fqdns_of
fqdns_of-Lacks c subdomain custom suffix dot k m l =
    All-append (Lacks c) (own_fqdn subdomain suffix) (custom_fqdns custom)
      (own_fqdn-Lacks c subdomain suffix dot k l) (custom_fqdns-Lacks c custom m)

domainized-hosts :
    (t : Tunnel) (host : Text) (label : Option Text)
    → Without b',' t.subdomain
    → Lacks b',' (suffix_of label host)
    → (if is_domain_type (domainize (tunnel_payload t) host label).type
        then custom_fqdns (domainize (tunnel_payload t) host label).custom_domains
        else [])
      ≡ (if is_domain_type t.type
          then trimmed (fqdns_of t.subdomain t.custom_domains (suffix_of label host))
          else [])
unfolding domainize tunnel_payload
domainized-hosts t host label k l = elim (Bool-cases (is_domain_type t.type)) [
  | inl e ↦
      rw (e, e)
        (custom_fqdns-joined (fqdns_of t.subdomain t.custom_domains (suffix_of label host))
          (fqdns_of-separator t.subdomain t.custom_domains (suffix_of label host) k l))
  | inr e ↦ rw (e, e) refl
]

-- The hosts in the grant are the names of the enabled http and https tunnels, stripped and without
-- blank ones: writing them as one text with commas and reading it again loses and adds none. No
-- `,` stands in a subdomain, the team's label and the node's host.
pub grant_hosts-out_tunnels :
    (node : Node) (ts : List Tunnel) (label : Option Text)
    → All (λ t. Without b',' t.subdomain) ts
    → Lacks b',' (suffix_of label node.subdomain_host)
    → grant_hosts (out_tunnels node ts label)
      ≡ trimmed (tunnel_hosts (suffix_of label node.subdomain_host) ts)
unfolding grant_hosts out_tunnels tunnel_hosts
grant_hosts-out_tunnels node [] label k l = refl
grant_hosts-out_tunnels node (t ∷ ts) label (kt, k) l = ground (
  arith,
  grant_hosts-out_tunnels node ts label k l,
  domainized-hosts t node.subdomain_host label kt l,
  trimmed-append (fqdns_of t.subdomain t.custom_domains (suffix_of label node.subdomain_host))
      (tunnel_hosts (suffix_of label node.subdomain_host) ts),
)

-- the remote ports of the enabled tcp and udp tunnels
unfoldable pub tunnel_ports : List Tunnel → List ℕ
tunnel_ports [] = []
tunnel_ports (t ∷ ts) =
    let rest = tunnel_ports ts in
    elim t.remote_port [
      | none ↦ rest
      | some zero ↦ rest
      | some (suc n) ↦ if t.enabled && is_port_type t.type then suc n ∷ rest else rest
    ]

-- The ports in the grant are the remote ports, other than 0, of the enabled tcp and udp tunnels.
pub grant_ports-out_tunnels :
    (node : Node) (ts : List Tunnel) (label : Option Text)
    → grant_ports (out_tunnels node ts label) ≡ tunnel_ports ts
unfolding grant_ports out_tunnels tunnel_ports domainize tunnel_payload
grant_ports-out_tunnels node [] label = refl
grant_ports-out_tunnels node (t ∷ ts) label = ground (arith, grant_ports-out_tunnels node ts label)
