-- ===== src/Web/Logs.antt =====
-- rctunnel-panel/rctunnel_panel/web/routes.py and logs.py: the pages and exports that are made from
-- the search index. The index is third-party and a parameter; a document is given by its team and its
-- fields as texts.
use rc_tunnel.Base.{
  ℕ, ◌+◌, ◌-◌, ◌*◌, ◌/◌, ◌==◌, not, Bool, true, false, Option, none, some, List, [], ◌∷◌, ◌++◌, map,
  select, find, length, ltb, Text, codes, text_eq, str, if◌then◌else◌,
}
use rc_tunnel.Base.Dict.{text_key}
use rc_tunnel.Models.{Panel, User, Team, Agent, Node, Tunnel, AgentStatus, online}
use rc_tunnel.Deps.{is_admin}
use rc_tunnel.Web.{team_filter, agents_for}

-- `logs.AUDIT`, `logs.CONN`, `logs.UPTIME`
pub data Index : Type 0 where
  audit_log conn_log uptime_log : Index

-- a text, or `None`
pub record LogDoc : Type 0 where
  pub team_id : Option ℕ
  pub agent_id : Option ℕ
  pub fields : List (Text × Option Text)

-- a `bool` query: the terms on team and agent, the beginning of the range, and how many
pub record Query : Type 0 where
  pub team : Option (Option ℕ)
  pub agent : Option ℕ
  pub since : Option ℕ
  pub size : ℕ

-- `tab if tab in … else "devices"`
pub data Tab : Type 0 where
  devices uptime audit conn : Tab

unfoldable pub tab_of : Text → Tab
tab_of tab =
    if text_eq tab (codes "uptime")
    then uptime
    else if text_eq tab (codes "audit")
    then audit
    else if text_eq tab (codes "conn")
    then conn
    else devices

-- `_ago`, of a number of seconds
unfoldable pub ago : ℕ → Text
ago secs =
    if ltb secs 60
    then str secs ++ codes "s ago"
    else if ltb secs 3600
    then str (secs / 60) ++ codes "m ago"
    else if ltb secs 86400
    then str (secs / 3600) ++ codes "h ago"
    else str (secs / 86400) ++ codes "d ago"

-- the traffic and the number of an agent's tunnels
unfoldable pub bytes_of : ℕ → List Tunnel → ℕ
bytes_of agent_id [] = 0
bytes_of agent_id (t ∷ ts) =
    let rest = bytes_of agent_id ts in
    if t.agent_id == agent_id then t.bytes_in + t.bytes_out + rest else rest

unfoldable pub tunnels_of : ℕ → List Tunnel → ℕ
tunnels_of agent_id ts = length (select (λ t. t.agent_id == agent_id) ts)

pub record DeviceRow : Type 0 where
  pub id : ℕ
  pub name : Text
  pub team : Option Text
  pub node : Option Text
  pub is_online : Bool
  pub version : Option Text
  pub outdated : Bool
  pub seen : Text
  pub bytes : ℕ
  pub tunnels : ℕ
  pub events : List LogDoc

abbrev pub team_name : Panel → Option ℕ → Option Text
team_name p none = none
team_name p (some id) = elim (find (λ (t : Team). t.id == id) p.teams) [
  | none ↦ none
  | some t ↦ some t.name
]

abbrev pub node_name : Panel → ℕ → Option Text
node_name p id = elim (find (λ (n : Node). n.id == id) p.nodes) [
  | none ↦ none
  | some n ↦ some n.name
]

abbrev shows_online : AgentStatus → Bool
shows_online online = true
shows_online _ = false

-- `bool(tv and a.agent_version and a.agent_version != tv)`
abbrev pub is_outdated : Option Text → Option Text → Bool
is_outdated (some (c ∷ tv)) (some (d ∷ v)) = not (text_eq (d ∷ v) (c ∷ tv))
is_outdated tv v = false

abbrev seen_of : ℕ → Option ℕ → Text
seen_of now none = codes "never"
seen_of now (some t) = ago (now - t)

-- what is on an `/activity` or `/fleet` page
pub data TabContent : Type 0 where
  device_rows_of : List DeviceRow → TabContent
  uptime_of : List (Agent × List LogDoc) → TabContent
  log_of : List LogDoc → TabContent

pub record Activity : Type 0 where
  pub online_count : ℕ
  pub total : ℕ
  pub req24 : ℕ
  pub audit24 : ℕ
  pub shown : TabContent

module _ (search : Index → Query → List LogDoc) where
  -- `_recent`
  unfoldable pub recent : Index → User → ℕ → List LogDoc
  recent idx u size =
      search idx (record { team = team_filter u; agent = none; since = none; size = size })

  unfoldable pub device_row : Option Text → ℕ → Panel → Agent → DeviceRow
  unfolding bytes_of tunnels_of ago
  device_row tv now p a = record {
    id = a.id;
    name = a.name;
    team = team_name p a.team_id;
    node = node_name p a.node_id;
    is_online = shows_online a.status;
    version = a.agent_version;
    outdated = is_outdated tv a.agent_version;
    seen = seen_of now a.last_seen;
    bytes = bytes_of a.id p.tunnels;
    tunnels = tunnels_of a.id p.tunnels;
    events = search uptime_log (record { team = none; agent = some a.id; since = none; size = 5 });
  }

  -- `_device_rows`
  unfoldable pub device_rows : Panel → User → Bool → Option Text → ℕ → List DeviceRow
  unfolding device_row
  device_rows p u glob tv now = map (device_row tv now p) (agents_for glob u p)

  -- the events of the last 40 days that `_uptime_rows` draws
  unfoldable pub uptime_rows : Panel → User → ℕ → List (Agent × List LogDoc)
  uptime_rows p u now =
      map
        (λ a. (
          a,
          search uptime_log (record {
            team = none;
            agent = some a.id;
            since = some (now - 40 * 86400);
            size = 2000;
          }),
        ))
        (agents_for (is_admin u.role) u p)

  unfoldable pub shown_for : Tab → Panel → User → Bool → Option Text → ℕ → TabContent
  unfolding device_rows uptime_rows recent
  shown_for devices p u glob tv now = device_rows_of (device_rows p u glob tv now)
  shown_for uptime p u glob tv now = uptime_of (uptime_rows p u now)
  shown_for audit p u glob tv now = log_of (recent audit_log u 100)
  shown_for conn p u glob tv now = log_of (recent conn_log u 100)

  module _ (count : Index → Query → ℕ) where
    -- `_count_since`
    unfoldable pub count_since : Index → User → ℕ → ℕ → ℕ
    count_since idx u hours now =
        count idx (record {
          team = team_filter u;
          agent = none;
          since = some (now - hours * 3600);
          size = 0;
        })

    -- `_activity_ctx`
    unfoldable pub activity_ctx : User → Panel → Text → Bool → Option Text → ℕ → Activity
    unfolding shown_for count_since
    activity_ctx u p tab glob tv now = record {
      online_count = length (select (λ a. shows_online a.status) (agents_for glob u p));
      total = length (agents_for glob u p);
      req24 = count_since conn_log u 24 now;
      audit24 = count_since audit_log u 24 now;
      shown = shown_for (tab_of tab) p u glob tv now;
    }
