-- ===== src/Examples/Supervisor.antt =====
-- The agent's supervisor, with downloads whose hash is their text.
use rc_tunnel.Base.{
  ℕ, List, ◌≡◌, refl, true, false, Bool, none, some, Option, [], ◌∷◌, ◌++◌, codes, Text, arith, All,
  map,
}
use rc_tunnel.Base.Dict.{get, text_key}
use rc_tunnel.Grant.{Grant, verify, granted}
use rc_tunnel.Protocol.{config_payload, agent_cn, ConfigPayload, TunnelPayload}
use rc_tunnel.Versions.{Upgrade}
use rc_tunnel.Supervisor.Render.{Paths, RctcConfig, render_rctc}
use rc_tunnel.Supervisor.Granted.{WithinScope, render_rctc-WithinScope}
use rc_tunnel.Supervisor.Ota.{Copies, Host, self_upgrade}
use rc_tunnel.Supervisor.Verified.{Kept, self_upgrade-Kept}
use rc_tunnel.Supervisor.Boot.{Install, done, emptied, Disk}
use rc_tunnel.Supervisor.Rollback.{Life, starts, connects, lives}
use rc_tunnel.Supervisor.Rollback.Fires.{start, lives-restores}
use rc_tunnel.Supervisor.Engine.{Engine, apply_config}
use rc_tunnel.Supervisor.Loaded.{Runs, apply_config-Runs}
use rc_tunnel.Examples.Data.{box, node, ssh, web}
use rc_tunnel.Examples.Grants.{stamp, stamp-Lacks, suffix-Plain, app-PlainTunnel}

abbrev paths : Paths
paths = record { ca = codes "ca.crt"; cert = codes "agent.crt"; key = codes "agent.key" }

abbrev sent_config : ConfigPayload
sent_config =
    config_payload stamp box node (ssh ∷ web ∷ []) (some (codes "acme")) 7001 (codes "k") 100

render_rctc-WithinScope_example :
    (g : Grant) × (verify stamp
        (codes "k")
        (render_rctc paths (codes "10.0.0.5") sent_config).grant
        (agent_cn 1)
        200
      ≡ granted g)
    × All (WithinScope g) (render_rctc paths (codes "10.0.0.5") sent_config).proxies
unfolding rc_tunnel.Protocol.suffix_of rc_tunnel.Protocol.Scope.tunnel_ports
render_rctc-WithinScope_example =
    render_rctc-WithinScope stamp stamp-Lacks box node (ssh ∷ web ∷ []) (some (codes "acme")) 7001
      b'k' [] 100 200 paths (codes "10.0.0.5") suffix-Plain ((tt, tt, tt), (app-PlainTunnel, tt))
      (omega arith, tt) (omega arith) (omega arith)

-- every download has these bytes, and its hash is itself
abbrev fetch : Text → Option Text
fetch url = some (codes "new")

abbrev hash : Text → Text
hash s = s

abbrev compiles : Text → Bool
compiles s = true

abbrev offer : Upgrade
offer = record {
  version = codes "1.0.0";
  base_url = [];
  files = codes "localip.py" ∷ [];
  sha256 = (codes "localip.py", codes "new") ∷ [];
}

abbrev copying : Copies
copying target bytes = some bytes

abbrev host : Host
host = record { files = (codes "localip.py", codes "old") ∷ []; upgraded = false; copies = copying }

self_upgrade-Kept_example :
    Kept fetch hash compiles offer.sha256
      (codes "localip.py")
      host.files
      (self_upgrade fetch hash compiles (codes "https://x.io") offer host).0.files
self_upgrade-Kept_example =
    self_upgrade-Kept fetch hash compiles (codes "https://x.io") (codes "localip.py") offer host
      refl refl

abbrev crashing : Install
crashing = record {
  files = (codes "localip.py", codes "new") ∷ (codes "localip.py.bak", codes "old") ∷ [];
  boot_attempts = none;
}

abbrev disk : Disk
disk = record { copies = copying; writes = done; unlinks = true }

abbrev crashes : List (ℕ × Disk)
crashes = (0, disk) ∷ (10, disk) ∷ (20, disk) ∷ (30, disk) ∷ (40, disk) ∷ []

lives-restores_example :
    ((lives compiles (map start crashes ++ []) crashing).1 ≡ true)
    × (get (codes "localip.py") (lives compiles (map start crashes ++ []) crashing).0.files
        ≡ some (codes "old"))
    × ((lives compiles (map start crashes ++ []) crashing).0.boot_attempts ≡ none)
unfolding get
lives-restores_example =
    lives-restores compiles 0 (codes "localip.py") (codes "old") crashes [] crashing
      (
        (omega arith, refl, (refl, refl)),
        (
          (omega arith, refl, (refl, refl)),
          (
            (omega arith, refl, (refl, refl)),
            ((omega arith, refl, (refl, refl)), ((omega arith, refl, (refl, refl)), tt)),
          ),
        ),
      )
      (omega arith) refl (refl, (refl, tt)) refl (λ py. refl)

-- four starts, the first of which cannot write the marker, a connection, and another start
abbrev restarts : List Life
restarts =
    starts 0 (record disk { writes = emptied })
    ∷ starts 10 disk
    ∷ starts 20 disk
    ∷ starts 30 disk
    ∷ connects true
    ∷ starts 40 disk
    ∷ []

abbrev can_start : Text → Bool
can_start program = true

abbrev dumps : RctcConfig → Text
dumps cfg = cfg.grant

-- an agent that has not started its engine yet
abbrev idle : Engine
idle = record {
  rctc = none;
  rctc_version = none;
  rctc_json = none;
  rctc_bin = codes "rctc";
  artifacts = (codes "rctc-amd64", codes "new") ∷ [];
  proc = none;
  last_generation = none;
}

sent_here :
    (apply_config fetch hash can_start
      (codes "x86_64")
      (codes "https://x.io")
      (codes "/w/rctc")
      dumps
      paths
      (codes "10.0.0.5")
      true
      sent_config
      idle).1
    ≡ true
unfolding apply_config
sent_here = refl

apply_config-Runs_example :
    Runs
      (dumps (render_rctc paths (codes "10.0.0.5") sent_config))
      (apply_config fetch hash can_start
        (codes "x86_64")
        (codes "https://x.io")
        (codes "/w/rctc")
        dumps
        paths
        (codes "10.0.0.5")
        true
        sent_config
        idle).0.proc
apply_config-Runs_example =
    apply_config-Runs fetch hash can_start (codes "x86_64") (codes "https://x.io") (codes "/w/rctc")
      dumps paths (codes "10.0.0.5") true sent_config idle tt sent_here
