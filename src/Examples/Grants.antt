-- ===== src/Examples/Grants.antt =====
-- Grants and configurations.
use rc_tunnel.Base.{◌≡◌, refl, some, [], ◌∷◌, codes, Text, Lacks, arith}
use rc_tunnel.Grant.{sign, verify, granted, refused, expired}
use rc_tunnel.Grant.RoundTrip.{Plain, scope, verify-sign}
use rc_tunnel.Protocol.{config_payload, agent_cn, fqdns_of, suffix_of}
use rc_tunnel.Protocol.Scope.{tunnel_hosts, tunnel_ports}
use rc_tunnel.Protocol.EndToEnd.{PlainTunnel, config_payload-scope}
use rc_tunnel.Examples.Data.{tested-Lacks, box, node, ssh, web}

-- a hash that is printable
abbrev pub stamp : Text → Text → Text
stamp key msg = codes "sig"

pub stamp-Lacks : (key msg : Text) → Lacks b'|' (stamp key msg)
stamp-Lacks key msg = tested-Lacks b'|' (codes "sig") refl

pub suffix-Plain : Plain (codes "acme.x.io")
suffix-Plain =
    (tested-Lacks b',' (codes "acme.x.io") refl, tested-Lacks b'|' (codes "acme.x.io") refl)

pub app-PlainTunnel : PlainTunnel web
app-PlainTunnel = (tested-Lacks b',' (codes "app") refl, tested-Lacks b'|' (codes "app") refl, tt)

config_payload-scope_example :
    verify stamp
      (codes "k")
      (config_payload stamp box node
        (ssh ∷ web ∷ [])
        (some (codes "acme"))
        7001
        (codes "k")
        100).grant
      (agent_cn 1)
      200
    ≡ granted (scope (agent_cn 1) (10000 ∷ []) (codes "app.acme.x.io" ∷ []))
unfolding tunnel_ports tunnel_hosts fqdns_of suffix_of
config_payload-scope_example =
    config_payload-scope stamp stamp-Lacks box node (ssh ∷ web ∷ []) (some (codes "acme")) 7001 b'k'
      [] 100 200 suffix-Plain ((tt, tt, tt), (app-PlainTunnel, tt)) (omega arith, tt) (omega arith)

verify-sign_example :
    verify stamp
      (codes "k")
      (sign stamp (codes "k") (codes "agent.1") (10000 ∷ []) (codes "X.io" ∷ []) 100 50)
      (codes "agent.1")
      151
    ≡ refused expired
verify-sign_example =
    verify-sign stamp stamp-Lacks (codes "k") (codes "agent.1") (10000 ∷ []) (codes "X.io" ∷ []) 100
      50 (tested-Lacks b'|' (codes "agent.1") refl) (omega arith, tt)
      ((tested-Lacks b',' (codes "X.io") refl, tested-Lacks b'|' (codes "X.io") refl), tt)
      (omega arith) (codes "agent.1") 151
