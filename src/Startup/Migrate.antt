-- ===== src/Startup/Migrate.antt =====
-- rctunnel-panel/rctunnel_panel/db.py: `_auto_migrate`. A database is a dictionary of tables, a table
-- its columns and its rows, a row a dictionary from columns to values. What a new column gives the
-- rows that are there is the default of its DDL.
use rc_tunnel.Base.{
  ℕ, Bool, true, false, not, ◌&&◌, ◌||◌, Option, none, some, List, [], ◌∷◌, ◌++◌, map, update, Text,
  codes, text_eq, text_member, if◌then◌else◌,
}
use rc_tunnel.Base.Dict.{get, put, text_key}

pub data Value : Type 0 where
  null : Value
  bool : Bool → Value
  number : ℕ → Value
  text : Text → Value

abbrev pub Row : Type 0
Row = List (Text × Value)

pub record Table : Type 0 where
  pub columns : List Text
  pub rows : List Row

abbrev pub Database : Type 0
Database = List (Text × Table)

abbrev pub Columns : Type 0
Columns = List (Text × Value)

abbrev pub agent_columns : Columns
agent_columns =
    (codes "agent_version", null)
    ∷ (codes "team_id", null)
    ∷ (codes "last_ping_ms", null)
    ∷ (codes "cert_days_left", null)
    ∷ (codes "cert_serial", null)
    ∷ (codes "prev_cert_serial", null)
    ∷ (codes "token_used", bool false)
    ∷ []

-- `_ADDED_COLUMNS`
abbrev pub added_columns : List (Text × Columns)
added_columns =
    (codes "users", (codes "team_id", null) ∷ (codes "token_version", number 0) ∷ [])
    ∷ (
      codes "teams",
      (codes "subdomain_label", null)
          ∷ (codes "quota_bytes", null)
          ∷ (codes "suspended", bool false)
          ∷ [],
    )
    ∷ (codes "agents", agent_columns)
    ∷ (
      codes "tunnels",
      (codes "bytes_in", number 0)
          ∷ (codes "bytes_out", number 0)
          ∷ (codes "last_today_in", number 0)
          ∷ (codes "last_today_out", number 0)
          ∷ (codes "use_encryption", bool false)
          ∷ (codes "use_compression", bool false)
          ∷ (codes "bandwidth_limit", null)
          ∷ (codes "health_check_type", null)
          ∷ (codes "health_check_path", null)
          ∷ (codes "http_user", null)
          ∷ (codes "http_password", null)
          ∷ (codes "host_header_rewrite", null)
          ∷ [],
    )
    ∷ []

-- `ALTER TABLE … ADD COLUMN …`
unfoldable pub add_column : Text → Value → Table → Table
add_column name default t = record {
  columns = t.columns ++ (name ∷ []);
  rows = map (put name default) t.rows;
}

-- the columns that the table did not have
unfoldable pub add_missing : List Text → Columns → Table → Table
unfolding add_column
add_missing have [] t = t
add_missing have ((name, default) ∷ cols) t =
    add_missing have cols (if text_member name have then t else add_column name default t)

unfoldable pub add_columns : List (Text × Columns) → Database → Database
unfolding add_missing
add_columns [] db = db
add_columns ((name, cols) ∷ more) db =
    add_columns more
      (elim (get name db) [ none ↦ db | some t ↦ put name (add_missing t.columns cols t) db ])

-- `… IS NOT NULL`
abbrev pub is_set : Option Value → Bool
is_set none = false
is_set (some null) = false
is_set (some _) = true

-- the agents that have enrolled
unfoldable pub has_enrolled : Row → Bool
has_enrolled row = is_set (get (codes "agent_version") row) || is_set (get (codes "last_seen") row)

-- once, when `token_used` is new
unfoldable pub burn_enrolled : Option Table → Database → Database
unfolding has_enrolled
burn_enrolled none db = db
burn_enrolled (some before) db =
    if text_member (codes "token_used") before.columns then db else elim (get (codes "agents") db) [
      | none ↦ db
      | some t ↦
          put (codes "agents")
            (record t { rows = update has_enrolled (put (codes "token_used") (bool true)) t.rows })
            db
    ]

-- `ALTER TABLE … RENAME COLUMN … TO …`
abbrev pub renamed : Text → Text → Text → Text
renamed old new name = if text_eq name old then new else name

unfoldable pub rename_column : Text → Text → Table → Table
rename_column old new t = record {
  columns = map (renamed old new) t.columns;
  rows = map (map (λ c. (renamed old new c.0, c.1))) t.rows;
}

unfoldable pub rename_legacy : List Text → Text → Text → Table → Table
unfolding rename_column
rename_legacy have old new t =
    if text_member old have && not (text_member new have) then rename_column old new t else t

unfoldable pub rename_nodes : Database → Database
unfolding rename_legacy
rename_nodes db = elim (get (codes "nodes") db) [
  | none ↦ db
  | some t ↦
      put (codes "nodes")
        (rename_legacy t.columns (codes "frp_token") (codes "node_token")
          (rename_legacy t.columns (codes "frps_control_port") (codes "control_port") t))
        db
]

unfoldable pub auto_migrate : Database → Database
unfolding add_columns burn_enrolled rename_nodes
auto_migrate db =
    rename_nodes (burn_enrolled (get (codes "agents") db) (add_columns added_columns db))
