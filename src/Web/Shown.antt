-- ===== src/Web/Shown.antt =====
-- rctunnel-panel/rctunnel_panel/web/routes.py: whose logs and devices a page or an export shows.
use rc_tunnel.Base.{
  ℕ, ◌-◌, ◌*◌, ◌≡◌, refl, ◌⊎◌, inl, inr, Bool, true, false, Option, none, some, List, [], ◌∷◌, All,
  All-weaken, Perhaps, map, Bool-cases, Option-cases, Text, subst,
}
use rc_tunnel.Base.Dict.{get, text_key}
use rc_tunnel.Base.Sorted.{sorted_set, text_ltb}
use rc_tunnel.Models.{Panel, User, Agent}
use rc_tunnel.Deps.{Claims, is_admin}
use rc_tunnel.Web.{page_user, team_filter, agents_for, starts_formula, csv_safe}
use rc_tunnel.Web.Access.{Allowed, agents_for-Allowed, csv_safe-inert}
use rc_tunnel.Web.Logs.{
  Index, audit_log, conn_log, uptime_log, LogDoc, Query, Tab, devices, uptime, audit, conn, tab_of,
  TabContent, device_rows_of, uptime_of, log_of, recent, device_row, device_rows, uptime_rows,
  shown_for, activity_ctx,
}
use rc_tunnel.Web.Exports.{cell, all_keys, csv_lines, export_index, export_docs, export_csv}

-- a document has the terms of the query
abbrev pub Matches : Query → LogDoc → Type 0
Matches q d = Perhaps (λ t. d.team_id ≡ t) q.team × Perhaps (λ a. d.agent_id ≡ some a) q.agent

-- a document of the user's team, or of any team for an administrator
abbrev pub Visible : User → LogDoc → Type 0
Visible u d = (is_admin u.role ≡ true) ⊎ (d.team_id ≡ u.team_id)

abbrev pub Inert : Text → Type 0
Inert v = starts_formula v ≡ false

All-map {ℓ} :
    {A B : Type 0} (P : B → Type ℓ) (f : A → B) (xs : List A)
    → ((x : A) → P (f x))
    → All P (map f xs)
All-map P f [] h = tt
All-map P f (x ∷ xs) h = (h x, All-map P f xs h)

All-map_of {ℓ κ} :
    {A B : Type 0} (Q : A → Type κ) (P : B → Type ℓ) (f : A → B) (xs : List A)
    → ((x : A) → Q x → P (f x))
    → All Q xs
    → All P (map f xs)
All-map_of Q P f [] h q = tt
All-map_of Q P f (x ∷ xs) h (qx, q) = (h x qx, All-map_of Q P f xs h q)

cell-Inert : (row : List (Text × Option Text)) (col : Text) → Inert (cell row col)
unfolding cell
cell-Inert row col = elim (Option-cases (get col row)) [
  | inl e ↦ rw (cell, e) refl
  | inr (none, e) ↦ rw (cell, e) (csv_safe-inert [])
  | inr (some v, e) ↦ rw (cell, e) (csv_safe-inert v)
]

csv_lines-Inert : (docs : List LogDoc) → All (All Inert) (csv_lines docs)
unfolding csv_lines
csv_lines-Inert [] = tt
csv_lines-Inert (d ∷ ds) =
    let cols = sorted_set text_ltb (all_keys (d ∷ ds)) in
    (
      All-map Inert csv_safe cols csv_safe-inert,
      All-map (All Inert) (λ r. map (cell r.fields) cols) (d ∷ ds)
          (λ r. All-map Inert (cell r.fields) cols (cell-Inert r.fields)),
    )

-- what a page shows that the user may see
abbrev pub ShownOwn : User → TabContent → Type 0
ShownOwn u (device_rows_of rows) =
    All
      (λ r. (a : Agent) × Allowed u a × (r.id ≡ a.id) × All (λ d. d.agent_id ≡ some a.id) r.events)
      rows
ShownOwn u (uptime_of rows) =
    All (λ r. Allowed u r.0 × All (λ d. d.agent_id ≡ some r.0.id) r.1) rows
ShownOwn u (log_of docs) = All (Visible u) docs

module _ (search : Index → Query → List LogDoc)
    (answers : (idx : Index) (q : Query) → All (Matches q) (search idx q)) where
  recent-Visible : (idx : Index) (u : User) (size : ℕ) → All (Visible u) (recent search idx u size)
  unfolding recent
  recent-Visible idx u size =
      let q : Query = record { team = team_filter u; agent = none; since = none; size = size } in
      elim (Bool-cases (is_admin u.role)) [
        | inl e ↦ All-weaken (Matches q) (Visible u) (search idx q) (λ d h. inl e) (answers idx q)
        | inr e ↦
            let own : team_filter u ≡ some u.team_id = unfold team_filter in rw e refl in
            All-weaken (Matches q) (Visible u) (search idx q)
              (λ d h. inr (subst (Perhaps (λ t. d.team_id ≡ t)) own h.0)) (answers idx q)
      ]

  -- An export contains only documents of the team of the user who asks for it, unless that user is
  -- an administrator, and no cell of the file begins like a formula. Each hit of the search index
  -- has the terms of the query.
  pub export_docs-Visible :
      (decode : Text → Option Claims) (cookie : Option Text) (tab : Text) (p : Panel) (u : User)
      → page_user decode p cookie ≡ some u
      → Perhaps (All (Visible u)) (export_docs decode search cookie tab p)
        × Perhaps (All (All Inert)) (export_csv decode search cookie tab p)
  unfolding export_docs export_csv
  export_docs-Visible decode cookie tab p u h =
      let docs = recent search (export_index tab) u 1000 in
      let got : export_docs decode search cookie tab p ≡ some docs = rw (export_docs, h) refl in
      let file : export_csv decode search cookie tab p ≡ some (csv_lines docs) =
        rw (export_csv, got) refl in
      rw (got, file) (recent-Visible (export_index tab) u 1000, csv_lines-Inert docs)

  of_agent :
      (id size : ℕ) (since : Option ℕ)
      → All
          (λ d. d.agent_id ≡ some id)
          (search uptime_log (record { team = none; agent = some id; since = since; size = size }))
  of_agent id size since = All-weaken _ _ _ (λ d h. h.1) (answers uptime_log _)

  shown_for-ShownOwn :
      (tab : Tab) (p : Panel) (u : User) (glob : Bool) (tv : Option Text) (now : ℕ)
      → (glob ≡ true → is_admin u.role ≡ true)
      → ShownOwn u (shown_for search tab p u glob tv now)
  unfolding shown_for device_rows device_row uptime_rows
  shown_for-ShownOwn devices p u glob tv now h =
      All-map_of (Allowed u) _ (device_row search tv now p) (agents_for glob u p)
        (λ a k. (a, k, refl, of_agent a.id 5 none)) (agents_for-Allowed glob u p h)
  shown_for-ShownOwn uptime p u glob tv now h =
      All-map_of (Allowed u) _ _ (agents_for (is_admin u.role) u p)
        (λ a k. (k, of_agent a.id 2000 (some (now - 40 * 86400))))
        (agents_for-Allowed (is_admin u.role) u p (λ e. e))
  shown_for-ShownOwn audit p u glob tv now h = recent-Visible audit_log u 100
  shown_for-ShownOwn conn p u glob tv now h = recent-Visible conn_log u 100

  -- On a page of devices, uptime or logs, whatever the tab, each device is an agent of the user's
  -- team with events of that agent only, and each document is of the user's team, unless the user
  -- is an administrator. The global view is given to administrators only, and each hit of the
  -- search index has the terms of the query.
  pub activity_ctx-ShownOwn :
      (count : Index → Query → ℕ) (u : User) (p : Panel) (tab : Text) (glob : Bool)
      (tv : Option Text) (now : ℕ)
      → (glob ≡ true → is_admin u.role ≡ true)
      → ShownOwn u (activity_ctx search count u p tab glob tv now).shown
  unfolding activity_ctx
  activity_ctx-ShownOwn count u p tab glob tv now h =
      shown_for-ShownOwn (tab_of tab) p u glob tv now h
