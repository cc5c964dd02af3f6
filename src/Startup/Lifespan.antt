-- ===== src/Startup/Lifespan.antt =====
-- rctunnel-panel/rctunnel_panel/main.py: `lifespan`, the checks before the panel serves anything, and
-- what they are for. The file of the CA is that of Pki.
use rc_tunnel.Base.{
  ℕ, ◌≡◌, refl, subst, select, Bool, true, false, not, ◌&&◌, ◌||◌, Option, none, some, List, [],
  ◌∷◌, ◌==◌, Text, codes, text_eq, truthy, starts_with, Result, ok, err, HttpException, Bool-cases,
  Option-cases, inl, inr, arith, if◌then◌else◌,
}
use rc_tunnel.Base.Relations.{find-key}
use rc_tunnel.Settings.{Settings}
use rc_tunnel.Models.{Panel, Agent, Node, get_agent, get_node, get_team}
use rc_tunnel.Grant.{sign, grant_ttl}
use rc_tunnel.Base.Dict.{get, number_key}
use rc_tunnel.Protocol.{
  ConfigPayload, TunnelPayload, config_payload, grant_for, grant_ports, grant_hosts, agent_cn,
}
use rc_tunnel.Manager.{Plane, push, build_config, config_for, served_tunnels, label_of}
use rc_tunnel.Startup.{DemoRows, init_rows}

-- how a start ends: two refusals, an exception of `init_db`, or the panel
pub data Start : Type 0 where
  forgeable_key no_isolation : Start
  failed : HttpException → Start
  started : Panel → Start

-- `s.jwt_secret in ("", "change-me")`
abbrev pub is_forgeable : Text → Bool
is_forgeable secret = text_eq secret [] || text_eq secret (codes "change-me")

abbrev pub is_sqlite : Settings → Bool
is_sqlite s = starts_with (codes "sqlite") s.database_url

abbrev pub after_init : Result Panel → Start
after_init (err e) = failed e
after_init (ok p) = started p

unfoldable pub lifespan : Settings → ℕ → ℕ → Node → DemoRows → Panel → Start
lifespan s new_team_id now new_node r p =
    if is_forgeable s.jwt_secret
    then forgeable_key
    else if not (truthy (some s.grant_secret)) && not (is_sqlite s)
    then no_isolation
    else after_init (init_rows s new_team_id now new_node r p)

-- a panel that starts on a real database has a secret
lifespan-secret :
    (s : Settings) (id now : ℕ) (n : Node) (r : DemoRows) (p p' : Panel)
    → lifespan s id now n r p ≡ started p'
    → is_sqlite s ≡ false
    → truthy (some s.grant_secret) ≡ true
unfolding lifespan
lifespan-secret s id now n r p p' h real = elim (Bool-cases (truthy (some s.grant_secret))) [
  | inl e ↦ e
  | inr e ↦ absurd (ground arith)
]

module _ (hmac : Text → Text → Text) where
  -- the grant of a configuration is one for the agent and its tunnels
  abbrev pub Signed : Text → ℕ → ℕ → ConfigPayload → Type 0
  Signed secret id now cfg =
      cfg.grant
      ≡ sign hmac secret (agent_cn id) (grant_ports cfg.tunnels) (grant_hosts cfg.tunnels) now
          grant_ttl

  grant_for-sign :
      (secret : Text) (a : Agent) (tps : List TunnelPayload) (now : ℕ)
      → truthy (some secret) ≡ true
      → grant_for hmac secret a tps now
        ≡ sign hmac secret (agent_cn a.id) (grant_ports tps) (grant_hosts tps) now grant_ttl
  unfolding grant_for
  grant_for-sign [] a tps now real = cc
  grant_for-sign (c ∷ secret) a tps now real = refl

  config_for-Signed :
      (s : Settings) (now : ℕ) (p : Panel) (a : Agent) (n : Option Node) (cfg : ConfigPayload)
      → truthy (some s.grant_secret) ≡ true
      → config_for hmac s now p a n ≡ some cfg
      → Signed s.grant_secret a.id now cfg
  unfolding config_for config_payload
  config_for-Signed s now p a none cfg real h = cc
  config_for-Signed s now p a (some n) cfg real h =
      let made : config_payload hmac a n
            (served_tunnels (get_team p a.team_id) (select (λ t. t.agent_id == a.id) p.tunnels))
            (label_of (get_team p a.team_id)) s.rctd_workconn_port s.grant_secret now
          ≡ cfg =
        cc in
      subst (Signed s.grant_secret a.id now) made (grant_for-sign s.grant_secret a _ now real)

  build_config-Signed :
      (s : Settings) (now id : ℕ) (p : Panel) (cfg : ConfigPayload)
      → truthy (some s.grant_secret) ≡ true
      → build_config hmac s now id p ≡ some cfg
      → Signed s.grant_secret id now cfg
  build_config-Signed s now id p cfg real h = elim (Option-cases (get_agent p id)) [
    | inl e ↦ absurd (unfold build_config in ground arith)
    | inr (a, e) ↦
        let made : config_for hmac s now p a (get_node p a.node_id) ≡ some cfg =
          unfold build_config in ground arith in
        subst (λ k. Signed s.grant_secret k now cfg) (find-key (λ x. x.id) id p.agents a e)
          (config_for-Signed s now p a (get_node p a.node_id) cfg real made)
  ]

  -- If the panel starts with these settings on a database that is not SQLite, every configuration
  -- it pushes with them carries a grant, signed for the agent it is pushed to and for the ports
  -- and hosts of that configuration.
  pub lifespan-grants :
      (s : Settings) (new_id start : ℕ) (n : Node) (r : DemoRows) (p p' : Panel) (now id conn : ℕ)
      (w : Plane) (cfg : ConfigPayload)
      → lifespan s new_id start n r p ≡ started p'
      → is_sqlite s ≡ false
      → push hmac s now id w ≡ some (conn, cfg)
      → Signed s.grant_secret id now cfg
  lifespan-grants s new_id start n r p p' now id conn w cfg h real sent =
      let secret = lifespan-secret s new_id start n r p p' h real in
      elim (Option-cases (build_config hmac s now id w.panel)) [
        | inl e ↦ absurd (elim (Option-cases (get id w.conns)) [
          | inl f ↦ unfold push in ground arith
          | inr (old, f) ↦ unfold push in ground arith
        ])
        | inr (made, e) ↦
            let same : made ≡ cfg = unfold push in ground arith in
            subst (Signed s.grant_secret id now) same
              (build_config-Signed s now id w.panel made secret e)
      ]
