-- ===== src/Startup/Settled.antt =====
-- rctunnel-panel/rctunnel_panel/db.py: a second `_auto_migrate`.
use rc_tunnel.Base.{
  ◌≡◌, refl, ap, sym, subst, ◌∙◌, inl, inr, true, false, Option, none, some, List, [], ◌∷◌, All,
  Perhaps, Text, codes, text_eq, text_member, Bool-cases, Option-cases, if◌then◌else◌,
}
use rc_tunnel.Base.Dict.{get, put, get-put_same, get-put_other, put-get, text_key}
use rc_tunnel.Startup.Migrate.{
  Table, Database, Columns, added_columns, agent_columns, add_column, add_missing, add_columns,
  burn_enrolled, rename_nodes, auto_migrate,
}
use rc_tunnel.Startup.Migrated.{Has, Complete, Grows, put-Grows, Grows-Has, add_columns-Complete}
use rc_tunnel.Startup.Renamed.{
  Neat, tidied, tidied-Neat, Neat-tidied, rename_nodes-some, rename_nodes-none,
}

add_missing-known :
    (have : List Text) (cols : Columns) (t : Table)
    → All (λ c. text_member c.0 have ≡ true) cols
    → add_missing have cols t ≡ t
unfolding add_missing
add_missing-known have [] t h = refl
add_missing-known have ((name, default) ∷ cols) t (e, h) =
    ap (λ b. add_missing have cols (if b then t else add_column name default t)) e
    ∙ add_missing-known have cols t h

add_columns-known :
    (more : List (Text × Columns)) (db : Database) → Complete more db → add_columns more db ≡ db
unfolding add_columns
add_columns-known [] db h = refl
add_columns-known ((name, cols) ∷ more) db (first, h) = elim (Option-cases (get name db)) [
  | inl e ↦ rw e (add_columns-known more db h)
  | inr (t, e) ↦
      let had : Has cols t = subst (Perhaps (Has cols)) e first in
      let same : put name (add_missing t.columns cols t) db ≡ db =
        ap (λ u. put name u db) (add_missing-known t.columns cols t had) ∙ put-get name t db e in
      rw e (rw same (add_columns-known more db h))
]

pub Complete-Grows :
    (more : List (Text × Columns)) (db db' : Database)
    → Grows db db'
    → Complete more db
    → Complete more db'
Complete-Grows [] db db' g h = tt
Complete-Grows ((name, cols) ∷ more) db db' g (first, h) =
    (Grows-Has db db' name cols g first, Complete-Grows more db db' g h)

burn_enrolled-Grows : (before : Option Table) (db : Database) → Grows db (burn_enrolled before db)
unfolding burn_enrolled
burn_enrolled-Grows none db = λ name t h. (t, h, λ c k. k)
burn_enrolled-Grows (some before) db =
    elim (Bool-cases (text_member (codes "token_used") before.columns)) [
      | inl e ↦ rw (burn_enrolled, e) (λ name t h. (t, h, λ c k. k))
      | inr e ↦ elim (Option-cases (get (codes "agents") db)) [
        | inl f ↦ rw (burn_enrolled, e, f) (λ name t h. (t, h, λ c k. k))
        | inr (t, f) ↦ rw (burn_enrolled, e, f) (put-Grows (codes "agents") t _ db f (λ c k. k))
      ]
    ]

-- the tables after a start
abbrev pub Migrated : Database → Type 0
Migrated db = Complete added_columns db × Perhaps Neat (get (codes "nodes") db)

put_nodes-Complete :
    (t : Table) (db : Database)
    → Complete added_columns db
    → Complete added_columns (put (codes "nodes") t db)
put_nodes-Complete t db (a, (b, (c, (d, _)))) =
    let other = λ (name : Text). λ (miss : text_eq (codes "nodes") name ≡ false).
      get-put_other (codes "nodes") name t db miss in
    (
      rw (other (codes "users") refl) a,
      (
        rw (other (codes "teams") refl) b,
        (rw (other (codes "agents") refl) c, (rw (other (codes "tunnels") refl) d, tt)),
      ),
    )

rename_nodes-Migrated : (db : Database) → Complete added_columns db → Migrated (rename_nodes db)
rename_nodes-Migrated db h = elim (Option-cases (get (codes "nodes") db)) [
  | inl e ↦ subst Migrated (sym (rename_nodes-none db e)) (h, subst (Perhaps Neat) (sym e) tt)
  | inr (t, e) ↦ subst Migrated (sym (rename_nodes-some db t e)) (
    put_nodes-Complete (tidied t) db h,
    subst (Perhaps Neat) (sym (get-put_same (codes "nodes") (tidied t) db)) (tidied-Neat t),
  )
]

pub auto_migrate-Migrated : (db : Database) → Migrated (auto_migrate db)
unfolding auto_migrate
auto_migrate-Migrated db =
    let wide = add_columns added_columns db in
    rename_nodes-Migrated (burn_enrolled (get (codes "agents") db) wide) (
      Complete-Grows added_columns wide (burn_enrolled (get (codes "agents") db) wide)
        (burn_enrolled-Grows (get (codes "agents") db) wide)
        (add_columns-Complete added_columns db))

burn_enrolled-known :
    (db : Database) → Complete added_columns db → burn_enrolled (get (codes "agents") db) db ≡ db
burn_enrolled-known db (a, (b, (c, (d, _)))) = elim (Option-cases (get (codes "agents") db)) [
  | inl e ↦ rw e (unfold burn_enrolled in refl)
  | inr (t, e) ↦
      let had : Has agent_columns t = subst (Perhaps (Has agent_columns)) e c in
      let known : text_member (codes "token_used") t.columns ≡ true = had.1.1.1.1.1.1.0 in
      rw e (unfold burn_enrolled in rw known refl)
]

rename_nodes-known : (db : Database) → Perhaps Neat (get (codes "nodes") db) → rename_nodes db ≡ db
rename_nodes-known db h = elim (Option-cases (get (codes "nodes") db)) [
  | inl e ↦ rename_nodes-none db e
  | inr (t, e) ↦
      let neat : Neat t = subst (Perhaps Neat) e h in
      rename_nodes-some db t e
      ∙ ap (λ u. put (codes "nodes") u db) (Neat-tidied t neat)
      ∙ put-get (codes "nodes") t db e
]

-- A start of a database that a start has left changes nothing: what was burnt or reissued stays.
pub auto_migrate-known : (db : Database) → Migrated db → auto_migrate db ≡ db
unfolding auto_migrate
auto_migrate-known db (full, neat) =
    rw (add_columns-known added_columns db full, burn_enrolled-known db full)
      (rename_nodes-known db neat)

-- A second migration changes nothing.
pub auto_migrate-twice :
    (db : Database)
    → Migrated (auto_migrate db) × (auto_migrate (auto_migrate db) ≡ auto_migrate db)
auto_migrate-twice db =
    let done = auto_migrate-Migrated db in (done, auto_migrate-known (auto_migrate db) done)
