-- ===== src/Startup/Migrated.antt =====
-- rctunnel-panel/rctunnel_panel/db.py: what `_auto_migrate` leaves.
use rc_tunnel.Base.{
  ◌≡◌, refl, ap, sym, subst, ◌∙◌, inl, inr, true, none, some, List, [], ◌∷◌, ◌++◌, any-append, All,
  All-weaken, Perhaps, arith, Text, text_eq, text_eq→eq, text_eq_refl, text_member, Bool-cases,
  Option-cases, if◌then◌else◌,
}
use rc_tunnel.Base.Dict.{get, put, get-put_same, get-put_other, text_key}
use rc_tunnel.Startup.Migrate.{
  Table, Database, Columns, added_columns, add_column, add_missing, add_columns, burn_enrolled,
  renamed, rename_column, rename_legacy, rename_nodes, auto_migrate,
}

-- every column of the list is there
abbrev pub Has : Columns → Table → Type 0
Has cols t = All (λ c. text_member c.0 t.columns ≡ true) cols

-- the tables that are there have the columns that were added later
abbrev pub Complete : List (Text × Columns) → Database → Type 0
Complete more db = All (λ m. Perhaps (Has m.1) (get m.0 db)) more

-- no column of one table is lost
abbrev pub Grown : Table → Table → Type 0
Grown t t' = (c : Text) → text_member c t.columns ≡ true → text_member c t'.columns ≡ true

abbrev pub Grows : Database → Database → Type 0
Grows db db' =
    (name : Text)
    → (t' : Table) → get name db' ≡ some t'
    → (t : Table) × (get name db ≡ some t) × Grown t t'

member-last : (c : Text) (cs : List Text) → text_member c (cs ++ (c ∷ [])) ≡ true
member-last c cs = any-append (λ t. text_eq c t) cs (c ∷ []) ∙ rw (text_eq_refl c) (ground arith)

add_column-Grown :
    (name : Text) (t : Table) (default : rc_tunnel.Startup.Migrate.Value)
    → Grown t (add_column name default t)
unfolding add_column
add_column-Grown name t default c h =
    any-append (λ k. text_eq c k) t.columns (name ∷ []) ∙ rw h refl

add_missing-Grown :
    (have : List Text) (cols : Columns) (t : Table) → Grown t (add_missing have cols t)
unfolding add_missing
add_missing-Grown have [] t c h = h
add_missing-Grown have ((name, default) ∷ cols) t c h = elim (Bool-cases (text_member name have)) [
  | inl e ↦ rw (add_missing, e) (add_missing-Grown have cols t c h)
  | inr e ↦
      rw (add_missing, e)
        (add_missing-Grown have cols (add_column name default t) c
          (add_column-Grown name t default c h))
]

add_missing-Has :
    (have : List Text) (cols : Columns) (t : Table)
    → ((c : Text) → text_member c have ≡ true → text_member c t.columns ≡ true)
    → Has cols (add_missing have cols t)
unfolding add_missing
add_missing-Has have [] t keep = tt
add_missing-Has have ((name, default) ∷ cols) t keep = elim (Bool-cases (text_member name have)) [
  | inl e ↦
      let step : add_missing have ((name, default) ∷ cols) t ≡ add_missing have cols t =
        ap (λ b. add_missing have cols (if b then t else add_column name default t)) e in
      subst (Has ((name, default) ∷ cols)) (sym step)
        (add_missing-Grown have cols t name (keep name e), add_missing-Has have cols t keep)
  | inr e ↦
      let wider = add_column name default t in
      let step : add_missing have ((name, default) ∷ cols) t ≡ add_missing have cols wider =
        ap (λ b. add_missing have cols (if b then t else add_column name default t)) e in
      subst (Has ((name, default) ∷ cols)) (sym step) (
        add_missing-Grown have cols wider name (unfold add_column in member-last name t.columns),
        add_missing-Has have cols wider (λ c h. add_column-Grown name t default c (keep c h)),
      )
]

-- one table of the loop
abbrev widened : Text → Columns → Database → Database
widened name cols db = elim (get name db) [
  | none ↦ db
  | some t ↦ put name (add_missing t.columns cols t) db
]

widened-some :
    (name : Text) (cols : Columns) (db : Database) (t : Table)
    → get name db ≡ some t
    → widened name cols db ≡ put name (add_missing t.columns cols t) db
widened-some name cols db t e = rw (widened, e) refl

widened-none :
    (name : Text) (cols : Columns) (db : Database) → get name db ≡ none → widened name cols db ≡ db
widened-none name cols db e = rw (widened, e) refl

Grows-refl : (db : Database) → Grows db db
Grows-refl db name t h = (t, h, λ c k. k)

pub put-Grows :
    (name : Text) (t t' : Table) (db : Database)
    → get name db ≡ some t
    → Grown t t'
    → Grows db (put name t' db)
put-Grows name t t' db here wide other u h = elim (Bool-cases (text_eq name other)) [
  | inl hit ↦
      let same : name ≡ other = text_eq→eq name other hit in
      let value : t' ≡ u =
        let step : get name (put name t' db) ≡ some u =
          subst (λ k. get k (put name t' db) ≡ some u) (sym same) h in
        let known = get-put_same name t' db in cc in
      (t, subst (λ k. get k db ≡ some t) same here, subst (Grown t) value wide)
  | inr miss ↦ (u, sym (get-put_other name other t' db miss) ∙ h, λ c k. k)
]

widened-Grows : (name : Text) (cols : Columns) (db : Database) → Grows db (widened name cols db)
widened-Grows name cols db = elim (Option-cases (get name db)) [
  | inl e ↦ subst (Grows db) (sym (widened-none name cols db e)) (Grows-refl db)
  | inr (t, e) ↦
      subst (Grows db) (sym (widened-some name cols db t e))
        (put-Grows name t (add_missing t.columns cols t) db e (add_missing-Grown t.columns cols t))
]

widened-Has :
    (name : Text) (cols : Columns) (db : Database)
    → Perhaps (Has cols) (get name (widened name cols db))
widened-Has name cols db = elim (Option-cases (get name db)) [
  | inl e ↦ subst (Perhaps (Has cols)) (sym (ap (get name) (widened-none name cols db e) ∙ e)) tt
  | inr (t, e) ↦
      subst (Perhaps (Has cols))
        (sym (
          ap (get name) (widened-some name cols db t e)
          ∙ get-put_same name (add_missing t.columns cols t) db))
        (add_missing-Has t.columns cols t (λ c h. h))
]

add_columns-Grows : (more : List (Text × Columns)) (db : Database) → Grows db (add_columns more db)
unfolding add_columns
add_columns-Grows [] db other u h = (u, h, λ c k. k)
add_columns-Grows ((name, cols) ∷ more) db other u h =
    let (t, there, wide) = add_columns-Grows more (widened name cols db) other u h in
    let (s, here, wide') = widened-Grows name cols db other t there in
    (s, here, λ c k. wide c (wide' c k))

pub Grows-Has :
    (db db' : Database) (name : Text) (cols : Columns)
    → Grows db db'
    → Perhaps (Has cols) (get name db)
    → Perhaps (Has cols) (get name db')
Grows-Has db db' name cols grows h = elim (Option-cases (get name db')) [
  | inl e ↦ rw e tt
  | inr (u, e) ↦
      let (t, here, wide) = grows name u e in
      let had : Has cols t = subst (Perhaps (Has cols)) here h in
      rw e (All-weaken _ _ cols (λ c k. wide c.0 k) had)
]

pub add_columns-Complete :
    (more : List (Text × Columns)) (db : Database) → Complete more (add_columns more db)
unfolding add_columns
add_columns-Complete [] db = tt
add_columns-Complete ((name, cols) ∷ more) db = (
  Grows-Has (widened name cols db) (add_columns more (widened name cols db)) name cols
      (add_columns-Grows more (widened name cols db)) (widened-Has name cols db),
  add_columns-Complete more (widened name cols db),
)
