-- ===== src/Startup/Restarted.antt =====
-- rctunnel-panel/rctunnel_panel/db.py: `_auto_migrate` at a later start, after requests have changed
-- the rows of the tables.
use rc_tunnel.Base.{
  ◌≡◌, refl, ap, sym, subst, inl, inr, true, some, List, [], ◌∷◌, Perhaps, Text, arith, codes,
  text_eq, text_member, Bool-cases, Option-cases,
}
use rc_tunnel.Base.Dict.{get, text_key}
use rc_tunnel.Startup.Migrate.{Table, Database, Row, added_columns, auto_migrate}
use rc_tunnel.Startup.Migrated.{Grows}
use rc_tunnel.Startup.Renamed.{Neat, Settled}
use rc_tunnel.Startup.Settled.{Migrated, Complete-Grows, auto_migrate-Migrated, auto_migrate-known}

-- anything is done to the rows of each table
unfoldable pub with_rows : (Text → List Row → List Row) → Database → Database
with_rows work [] = []
with_rows work ((name, t) ∷ db) = (name, record t { rows = work name t.rows }) ∷ with_rows work db

abbrev NeatColumns : List Text → Type 0
NeatColumns cols =
    Settled (codes "frps_control_port") (codes "control_port") cols
    × Settled (codes "frp_token") (codes "node_token") cols

module _ (work : Text → List Row → List Row) where
  -- A table of the later database is one of the earlier with the same columns.
  get-with_rows :
      (name : Text) (db : Database) (u : Table)
      → get name (with_rows work db) ≡ some u
      → (t : Table) × (get name db ≡ some t) × (u.columns ≡ t.columns)
  unfolding with_rows get
  get-with_rows name [] u h = ground arith
  get-with_rows name ((other, t) ∷ db) u h = elim (Bool-cases (text_eq other name)) [
    | inl e ↦
        let same : record t { rows = work other t.rows } ≡ u = ground arith in
        (t, rw e refl, ap (λ v. v.columns) (sym same))
    | inr e ↦ let (t', here, kept) = get-with_rows name db u (ground arith) in (t', rw e here, kept)
  ]

  with_rows-Grows : (db : Database) → Grows db (with_rows work db)
  with_rows-Grows db name u h =
      let (t, here, kept) = get-with_rows name db u h in
      (t, here, λ c k. subst (λ cols. text_member c cols ≡ true) (sym kept) k)

  with_rows-Migrated : (db : Database) → Migrated db → Migrated (with_rows work db)
  with_rows-Migrated db (full, neat) =
      let later = with_rows work db in
      (
        Complete-Grows added_columns db later (with_rows-Grows db) full,
        elim (Option-cases (get (codes "nodes") later)) [
          | inl e ↦ subst (Perhaps Neat) (sym e) tt
          | inr (u, e) ↦
              let (t, here, kept) = get-with_rows (codes "nodes") db u e in
              let had : Neat t = subst (Perhaps Neat) here neat in
              subst (Perhaps Neat) (sym e) (subst NeatColumns (sym kept) had)
        ],
      )

  -- Whatever requests do to the rows of the tables after a start, the next start finds every table
  -- that is there with all the columns that were added later and no old column name of the nodes
  -- whose new one is missing, and its migration changes nothing: no row is altered, so a token
  -- that was reissued since stays unused.
  pub auto_migrate-with_rows :
      (db : Database)
      → Migrated (with_rows work (auto_migrate db))
        × (auto_migrate (with_rows work (auto_migrate db)) ≡ with_rows work (auto_migrate db))
  auto_migrate-with_rows db =
      let later = with_rows-Migrated (auto_migrate db) (auto_migrate-Migrated db) in
      (later, auto_migrate-known (with_rows work (auto_migrate db)) later)
