-- ===== src/Startup/Renamed.antt =====
-- rctunnel-panel/rctunnel_panel/db.py: the columns of the nodes that `_auto_migrate` renames.
use rc_tunnel.Base.{
  ◌≡◌, refl, ap, sym, ◌∙◌, inl, inr, false, not, ◌&&◌, ◌||◌, none, some, List, [], ◌∷◌, map, Text,
  codes, text_eq, text_eq→eq, text_eq_sym, text_member, Bool-cases,
}
use rc_tunnel.Base.Dict.{get, put, text_key}
use rc_tunnel.Startup.Migrate.{Table, Database, renamed, rename_legacy, rename_nodes}

-- nothing is left to rename
abbrev pub Settled : Text → Text → List Text → Type 0
Settled old new cols = (text_member old cols && not (text_member new cols)) ≡ false

abbrev pub Neat : Table → Type 0
Neat t =
    Settled (codes "frps_control_port") (codes "control_port") t.columns
    × Settled (codes "frp_token") (codes "node_token") t.columns

member-renamed_old :
    (old new : Text) (cols : List Text)
    → text_eq old new ≡ false
    → text_member old (map (renamed old new) cols) ≡ false
member-renamed_old old new [] h = refl
member-renamed_old old new (c ∷ cols) h = elim (Bool-cases (text_eq c old)) [
  | inl e ↦ rw (e, h) (member-renamed_old old new cols h)
  | inr e ↦
      let other : text_eq old c ≡ false = text_eq_sym old c ∙ e in
      rw (e, other) (member-renamed_old old new cols h)
]

member-renamed_other :
    (old new x : Text) (cols : List Text)
    → text_eq x old ≡ false
    → text_eq x new ≡ false
    → text_member x (map (renamed old new) cols) ≡ text_member x cols
member-renamed_other old new x [] h k = refl
member-renamed_other old new x (c ∷ cols) h k = elim (Bool-cases (text_eq c old)) [
  | inl e ↦
      let same : c ≡ old = text_eq→eq c old e in
      let not_here : text_eq x c ≡ false = ap (text_eq x) same ∙ h in
      rw (e, k, not_here) (member-renamed_other old new x cols h k)
  | inr e ↦ rw e (ap (λ b. text_eq x c || b) (member-renamed_other old new x cols h k))
]

module _ (have : List Text) (old new : Text) (differ : text_eq old new ≡ false) (t : Table) where
  rename_legacy-Settled :
      text_member old have ≡ text_member old t.columns
      → text_member new have ≡ text_member new t.columns
      → Settled old new (rename_legacy have old new t).columns
  rename_legacy-Settled same same' =
      elim (Bool-cases (text_member old have && not (text_member new have))) [
        | inl e ↦
            let step : (rename_legacy have old new t).columns ≡ map (renamed old new) t.columns =
              unfold rename_legacy in rw e refl in
            rw step (rw (member-renamed_old old new t.columns differ) refl)
        | inr e ↦
            let step : (rename_legacy have old new t).columns ≡ t.columns =
              unfold rename_legacy in rw e refl in
            rw step (rw (← same, ← same') e)
      ]

  rename_legacy-other :
      (x : Text)
      → text_eq x old ≡ false
      → text_eq x new ≡ false
      → text_member x (rename_legacy have old new t).columns ≡ text_member x t.columns
  rename_legacy-other x h k =
      elim (Bool-cases (text_member old have && not (text_member new have))) [
        | inl e ↦
            let step : (rename_legacy have old new t).columns ≡ map (renamed old new) t.columns =
              unfold rename_legacy in rw e refl in
            rw step (member-renamed_other old new x t.columns h k)
        | inr e ↦
            let step : (rename_legacy have old new t).columns ≡ t.columns =
              unfold rename_legacy in rw e refl in
            rw step refl
      ]

abbrev pub tidied : Table → Table
tidied t =
    rename_legacy t.columns (codes "frp_token") (codes "node_token")
      (rename_legacy t.columns (codes "frps_control_port") (codes "control_port") t)

pub tidied-Neat : (t : Table) → Neat (tidied t)
tidied-Neat t =
    let once = rename_legacy t.columns (codes "frps_control_port") (codes "control_port") t in
    let kept =
      rename_legacy-other t.columns (codes "frps_control_port") (codes "control_port") refl t in
    let later = rename_legacy-other t.columns (codes "frp_token") (codes "node_token") refl once in
    let first : Settled (codes "frps_control_port") (codes "control_port") once.columns =
      rename_legacy-Settled t.columns (codes "frps_control_port") (codes "control_port") refl t refl
        refl in
    (
      rw (later (codes "frps_control_port") refl refl, later (codes "control_port") refl refl)
          first,
      rename_legacy-Settled t.columns (codes "frp_token") (codes "node_token") refl once
          (sym (kept (codes "frp_token") refl refl)) (sym (kept (codes "node_token") refl refl)),
    )

pub Neat-tidied : (t : Table) → Neat t → tidied t ≡ t
unfolding rename_legacy
Neat-tidied t (a, b) = rw (a, b) refl

pub rename_nodes-some :
    (db : Database) (t : Table)
    → get (codes "nodes") db ≡ some t
    → rename_nodes db ≡ put (codes "nodes") (tidied t) db
unfolding rename_nodes
rename_nodes-some db t e = rw (rename_nodes, e) refl

pub rename_nodes-none : (db : Database) → get (codes "nodes") db ≡ none → rename_nodes db ≡ db
unfolding rename_nodes
rename_nodes-none db e = rw (rename_nodes, e) refl
