-- ===== src/Examples/Operations.antt =====
-- The start of the panel, its scripts, its audit log and its pages of logs.
use rc_tunnel.Base.{
  ℕ, ◌≡◌, refl, true, false, Bool, none, some, Option, List, [], ◌∷◌, ◌++◌, codes, Text, text_eq,
  map, arith, inl, inr, ok, All, Perhaps, ltb, select, ◌&&◌, length, Bool-cases, if◌then◌else◌,
}
use rc_tunnel.Base.Dict.{put, text_key}
use rc_tunnel.Settings.{Settings, default_settings}
use rc_tunnel.Models.{Panel, User, Agent, get_agent, admin, user}
use rc_tunnel.Deps.{Claims, token_claims, current_user}
use rc_tunnel.Protocol.{ConfigPayload}
use rc_tunnel.Manager.{Plane, push}
use rc_tunnel.Agents.{reissue_token, reissued}
use rc_tunnel.Demo.{HttpRequest, Method, is_mutating_api}
use rc_tunnel.Audit.{audited, audited-actor, audit_entry}
use rc_tunnel.Startup.{DemoRows}
use rc_tunnel.Startup.Lifespan.{lifespan, started, lifespan-grants, Signed}
use rc_tunnel.Startup.Migrate.{Database, Row, auto_migrate, bool, number}
use rc_tunnel.Startup.Settled.{Migrated}
use rc_tunnel.Startup.Restarted.{with_rows, auto_migrate-with_rows}
use rc_tunnel.Scripts.Copy.{sqlite_to_pg}
use rc_tunnel.Scripts.Copied.{sqlite_to_pg-reissued}
use rc_tunnel.Examples.Data.{ann, box, node, panel}
use rc_tunnel.Examples.Grants.{stamp}

-- an old database: no tokens are burnt in it, and its node has the old names
abbrev old_tables : Database
old_tables =
    (
      codes "agents",
      record {
        columns = codes "id" ∷ codes "last_seen" ∷ [];
        rows = ((codes "id", number 1) ∷ (codes "last_seen", number 9) ∷ []) ∷ [];
      },
    )
    ∷ (codes "nodes", record { columns = codes "id" ∷ codes "frp_token" ∷ []; rows = [] })
    ∷ []

-- the tokens of all agents are reissued
abbrev reissue_all : Text → List Row → List Row
reissue_all name rows =
    if text_eq name (codes "agents") then map (put (codes "token_used") (bool false)) rows else rows

auto_migrate-with_rows_example :
    Migrated (with_rows reissue_all (auto_migrate old_tables))
    × (auto_migrate (with_rows reissue_all (auto_migrate old_tables))
        ≡ with_rows reissue_all (auto_migrate old_tables))
auto_migrate-with_rows_example = auto_migrate-with_rows reissue_all old_tables

abbrev postgres : Settings
postgres = record default_settings {
  jwt_secret = codes "a long secret";
  grant_secret = codes "k";
  database_url = codes "postgresql://db";
}

abbrev rows : DemoRows
rows = record {
  team_id = 7;
  user_id = 7;
  agent_id = 7;
  site_id = 7;
  ssh_id = 8;
  now = 5;
  password_hash = [];
  agent_token = [];
}

-- before the first start there is nothing
abbrev blank : Panel
blank = record {
  teams = [];
  users = [];
  nodes = [];
  agents = [];
  tunnels = [];
  revoked_serials = [];
  appends = [];
  notified = [];
}

abbrev at_start : Panel
at_start = record blank { nodes = rc_tunnel.Startup.from_settings postgres node ∷ [] }

started_here : lifespan postgres 1 5 node rows blank ≡ started at_start
unfolding lifespan rc_tunnel.Startup.init_rows
started_here = refl

abbrev plane : Plane
plane = record { panel = panel; conns = (1, 4) ∷ [] }

abbrev sent : ConfigPayload
sent = elim (push stamp postgres 100 1 plane) [
  | some (conn, cfg) ↦ cfg
  | none ↦ rc_tunnel.Protocol.config_payload stamp box node [] none 0 [] 0
]

sent_here : push stamp postgres 100 1 plane ≡ some (4, sent)
unfolding push rc_tunnel.Base.Dict.get rc_tunnel.Manager.build_config
sent_here = refl

lifespan-grants_example : Signed stamp (codes "k") 1 100 sent
lifespan-grants_example =
    lifespan-grants stamp postgres 1 5 node rows blank at_start 100 1 4 plane sent started_here refl
      sent_here

abbrev seen_box : Agent
seen_box = record box { last_seen = some 40 }

abbrev seen : Panel
seen = record panel { agents = seen_box ∷ [] }

abbrev fresh_token : Panel
fresh_token = record seen {
  agents = reissued (codes "t2") seen_box ∷ [];
  revoked_serials = codes "7" ∷ [];
}

reissued_here : reissue_token ann 1 (codes "t2") seen ≡ ok fresh_token
unfolding reissue_token rc_tunnel.Agents.found rc_tunnel.Deps.check_team_access
    rc_tunnel.Models.revoke_serial
reissued_here = refl

sqlite_to_pg-reissued_example :
    get_agent (sqlite_to_pg panel fresh_token).0 1
    ≡ some (record (reissued (codes "t2") seen_box) { token_used = true })
sqlite_to_pg-reissued_example =
    sqlite_to_pg-reissued panel seen fresh_token ann 1 (codes "t2") seen_box refl refl reissued_here

abbrev pub claims : Claims
claims = token_claims 100 24 ann

abbrev pub decode : Text → Option Claims
decode token = some claims

abbrev rename : HttpRequest
rename = record {
  method = Method.patch;
  path = codes "/api/agents/1";
  auth = record { authorization = none; cookie = some (codes "token") };
}

abbrev handler : HttpRequest → Panel → Panel × ℕ
handler r p = (record p { agents = [] }, 200)

mine_here : current_user decode panel rename.auth ≡ ok ann
unfolding current_user rc_tunnel.Deps.extract_token token_claims
mine_here = refl

changes_here : is_mutating_api rename ≡ true
unfolding is_mutating_api
changes_here = refl

later_here :
    rc_tunnel.Models.get_user (audited decode handler default_settings none rename panel).0 2
    ≡ some ann
unfolding audited is_mutating_api rc_tunnel.Demo.token_role rc_tunnel.Deps.extract_token
    token_claims
later_here = refl

audited-actor_example :
    let (p', status, docs) = audited decode handler default_settings none rename panel in
    docs ≡ (if ltb status 400 then audit_entry (ann.email, ann.team_id) none rename ∷ [] else [])
audited-actor_example =
    audited-actor decode handler default_settings none rename panel ann ann refl changes_here
      mine_here later_here
