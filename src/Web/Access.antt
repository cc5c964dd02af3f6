-- ===== src/Web/Access.antt =====
-- rctunnel-panel/rctunnel_panel/web/routes.py: what a page shows of other teams, and how long a
-- cookie opens it.
use rc_tunnel.Base.{
  ℕ, ◌≡◌, refl, Bool, true, false, not, ◌&&◌, ◌||◌, Option, none, some, List, [], ◌∷◌, All, select,
  Bool-cases, Option-cases, inl, inr, arith, Text, if◌then◌else◌,
}
use rc_tunnel.Settings.{Settings}
use rc_tunnel.Models.{Panel, User, Agent, get_agent}
use rc_tunnel.Deps.{Claims, is_admin}
use rc_tunnel.Web.{
  Page, to_login, to_home, landing, dashboard_of, profile_of, admin_of, agent_of, activity_of,
  rows_of, same_id, agents_for, page_user, dashboard, agent_detail, activity_page, fleet_page,
  admin_page, team_filter, activity_export, fleet_export, starts_formula, csv_safe,
}

-- nothing of another team is on the page, unless it is an administrator's
abbrev pub Allowed : User → Agent → Type 0
Allowed u a = (is_admin u.role || same_id a.team_id u.team_id) ≡ true

abbrev pub OwnTeam : Page → Type 0
OwnTeam to_login = Unit
OwnTeam to_home = Unit
OwnTeam landing = Unit
OwnTeam (dashboard_of u rows) = All (Allowed u) rows
OwnTeam (profile_of u) = Unit
OwnTeam (admin_of u teams users counts usage) = is_admin u.role ≡ true
OwnTeam (agent_of u a n tunnels label) = Allowed u a
OwnTeam (activity_of u glob rows) = All (Allowed u) rows
OwnTeam (rows_of u none) = is_admin u.role ≡ true
OwnTeam (rows_of u (some team)) = team ≡ u.team_id

-- which page is asked for
pub data Visit : Type 0 where
  dashboard_page admin_visit activity_visit fleet_visit activity_rows fleet_rows : Visit
  agent_page : ℕ → Visit

unfoldable pub visit : (Text → Option Claims) → Settings → Visit → Option Text → Panel → Page
unfolding dashboard admin_page activity_page fleet_page agent_detail activity_export fleet_export
visit decode s dashboard_page cookie p = dashboard decode s cookie p
visit decode s admin_visit cookie p = admin_page decode cookie p
visit decode s activity_visit cookie p = activity_page decode cookie p
visit decode s fleet_visit cookie p = fleet_page decode cookie p
visit decode s activity_rows cookie p = activity_export decode cookie p
visit decode s fleet_rows cookie p = fleet_export decode cookie p
visit decode s (agent_page id) cookie p = agent_detail decode id cookie p

select-Allowed :
    (u : User) (rows : List Agent)
    → All (Allowed u) (select (λ a. same_id a.team_id u.team_id) rows)
select-Allowed u [] = tt
select-Allowed u (a ∷ rows) = elim (Bool-cases (same_id a.team_id u.team_id)) [
  | inl e ↦ rw e (ground arith, select-Allowed u rows)
  | inr e ↦ rw e (select-Allowed u rows)
]

admin-Allowed : (u : User) (rows : List Agent) → is_admin u.role ≡ true → All (Allowed u) rows
admin-Allowed u [] e = tt
admin-Allowed u (a ∷ rows) e = (rw e refl, admin-Allowed u rows e)

pub agents_for-Allowed :
    (glob : Bool) (u : User) (p : Panel)
    → (glob ≡ true → is_admin u.role ≡ true)
    → All (Allowed u) (agents_for glob u p)
unfolding agents_for
agents_for-Allowed true u p h = admin-Allowed u p.agents (h refl)
agents_for-Allowed false u p h = select-Allowed u p.agents

team_filter-OwnTeam : (u : User) → OwnTeam (rows_of u (team_filter u))
unfolding team_filter
team_filter-OwnTeam u = elim (Bool-cases (is_admin u.role)) [ inl e ↦ rw e e | inr e ↦ rw e refl ]

-- the pages that anybody may ask for, of nobody and of a user
landing-OwnTeam : (s : Settings) → OwnTeam (if s.demo_mode then landing else to_login)
landing-OwnTeam s = elim (Bool-cases s.demo_mode) [ inl e ↦ rw e tt | inr e ↦ rw e tt ]

admin-OwnTeam :
    (u : User) (page : Page)
    → (is_admin u.role ≡ true → OwnTeam page)
    → OwnTeam (if not (is_admin u.role) then to_home else page)
admin-OwnTeam u page f = elim (Bool-cases (is_admin u.role)) [
  | inl e ↦ rw e (f e)
  | inr e ↦ rw e tt
]

agent-OwnTeam :
    (u : User) (a : Agent) (page : Page)
    → (Allowed u a → OwnTeam page)
    → OwnTeam (if not (is_admin u.role) && not (same_id a.team_id u.team_id) then to_home else page)
agent-OwnTeam u a page f = elim (Bool-cases (is_admin u.role || same_id a.team_id u.team_id)) [
  | inl e ↦
      let open_ : (not (is_admin u.role) && not (same_id a.team_id u.team_id)) ≡ false =
        ground arith in
      rw open_ (f e)
  | inr e ↦
      let shut : (not (is_admin u.role) && not (same_id a.team_id u.team_id)) ≡ true =
        ground arith in
      rw shut tt
]

module _ (decode : Text → Option Claims) (s : Settings) (cookie : Option Text) (p : Panel) where
  visit-nobody :
      (v : Visit) → page_user decode p cookie ≡ none → OwnTeam (visit decode s v cookie p)
  unfolding visit dashboard admin_page activity_page fleet_page agent_detail activity_export
      fleet_export
  visit-nobody dashboard_page e = rw (dashboard, e) (landing-OwnTeam s)
  visit-nobody admin_visit e = rw (admin_page, e) tt
  visit-nobody activity_visit e = rw (activity_page, e) tt
  visit-nobody fleet_visit e = rw (fleet_page, e) tt
  visit-nobody activity_rows e = rw (activity_export, e) tt
  visit-nobody fleet_rows e = rw (fleet_export, e) tt
  visit-nobody (agent_page id) e = rw (agent_detail, e) tt

  detail-OwnTeam :
      (id : ℕ) (u : User)
      → page_user decode p cookie ≡ some u
      → OwnTeam (agent_detail decode id cookie p)
  unfolding agent_detail
  detail-OwnTeam id u e = elim (Option-cases (get_agent p id)) [
    | inl f ↦ rw (agent_detail, e, f) tt
    | inr (a, f) ↦ rw (agent_detail, e, f) (agent-OwnTeam u a _ (λ k. k))
  ]

  visit-user :
      (v : Visit) (u : User)
      → page_user decode p cookie ≡ some u
      → OwnTeam (visit decode s v cookie p)
  unfolding visit dashboard admin_page activity_page fleet_page activity_export fleet_export
  visit-user dashboard_page u e =
      rw (dashboard, e) (agents_for-Allowed (is_admin u.role) u p (λ e. e))
  visit-user admin_visit u e = rw (admin_page, e) (admin-OwnTeam u _ (λ k. k))
  visit-user activity_visit u e =
      rw (activity_page, e) (agents_for-Allowed (is_admin u.role) u p (λ e. e))
  visit-user fleet_visit u e =
      rw (fleet_page, e) (admin-OwnTeam u _ (λ k. agents_for-Allowed true u p (λ _. k)))
  visit-user activity_rows u e = rw (activity_export, e) (team_filter-OwnTeam u)
  visit-user fleet_rows u e = elim (Bool-cases (is_admin u.role)) [
    | inl k ↦ rw (fleet_export, e, k, activity_export, e) (team_filter-OwnTeam u)
    | inr k ↦ rw (fleet_export, e, k) tt
  ]
  visit-user (agent_page id) u e = detail-OwnTeam id u e

  -- Whatever the cookie, the dashboard, the activity, fleet and agent pages show no agent of a
  -- team other than that of the user they are rendered for, unless that user is an administrator;
  -- the admin page is rendered for administrators only, and the exports search the rows of the
  -- user's team, or all of them for an administrator.
  pub visit-OwnTeam : (v : Visit) → OwnTeam (visit decode s v cookie p)
  visit-OwnTeam v = elim (Option-cases (page_user decode p cookie)) [
    | inl e ↦ visit-nobody v e
    | inr (u, e) ↦ visit-user v u e
  ]

-- No cell of an export begins like a formula.
pub csv_safe-inert : (v : Text) → starts_formula (csv_safe v) ≡ false
unfolding csv_safe
csv_safe-inert v = elim (Bool-cases (starts_formula v)) [ inl e ↦ rw e refl | inr e ↦ rw e e ]
