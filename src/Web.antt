-- ===== src/Web.antt =====
-- rctunnel-panel/rctunnel_panel/web/routes.py: who is shown what. A page is given by what it is
-- about; templates and the search index are output only. `int` and `decode_token` are one parameter
-- that gives the claims of a good cookie.
pub mod Windows
pub mod Access
pub mod Logs
pub mod Exports
pub mod Shown
use rc_tunnel.Base.{
  ◌≡◌, ◌↔◌, arith, ℕ, ◌+◌, ◌==◌, ◌&&◌, ◌||◌, not, Bool, true, false, Option, none, some, List, [],
  ◌∷◌, ◌++◌, find, any, select, map, Text, codes, text_eq, truthy, both_eq, if◌then◌else◌,
}
use rc_tunnel.Base.Dict.{Eq, get, put}
use rc_tunnel.Settings.{Settings}
use rc_tunnel.Models.{
  Panel, User, Team, Agent, Node, Tunnel, get_user, get_agent, get_team, get_node,
}
use rc_tunnel.Deps.{Claims, is_admin, token_claims}
use rc_tunnel.Auth.{credentials}
use rc_tunnel.RateLimit.{Fails, too_many, record_fail, clear}
use rc_tunnel.Startup.{demo_email}

-- `agent.team_id == user.team_id`, also where both are `None`
abbrev pub same_id : Option ℕ → Option ℕ → Bool
same_id none none = true
same_id (some a) (some b) = a == b
same_id _ _ = false

-- what is rendered
pub data Page : Type 0 where
  to_login to_home landing : Page
  dashboard_of : User → List Agent → Page
  profile_of : User → Page
  admin_of : User → List Team → List User → List (Option ℕ × ℕ) → List (Option ℕ × ℕ) → Page
  agent_of : User → Agent → Option Node → List Tunnel → Option Text → Page
  activity_of : User → Bool → List Agent → Page
  rows_of : User → Option (Option ℕ) → Page

-- `_team_filter`: the team whose rows are searched, if only those are
unfoldable pub team_filter : User → Option (Option ℕ)
team_filter u = if is_admin u.role then none else some u.team_id

-- the agents that a user without `glob` sees
unfoldable pub agents_for : Bool → User → Panel → List Agent
agents_for glob u p = if glob then p.agents else select (λ a. same_id a.team_id u.team_id) p.agents

abbrev pub count_of : Option ℕ → ℕ
count_of none = 0
count_of (some n) = n

pub same_id_iff : (a b : Option ℕ) → (same_id a b ≡ true) ↔ (a ≡ b)
same_id_iff none none = ground arith
same_id_iff none (some b) = ground arith
same_id_iff (some a) none = ground arith
same_id_iff (some a) (some b) = ground arith

instance abbrev pub team_key : Eq (Option ℕ)
team_key = record { beq = same_id; beq_iff = same_id_iff }

-- `d[k] = d.get(k, 0) + n`
unfoldable pub add_to : Option ℕ → ℕ → List (Option ℕ × ℕ) → List (Option ℕ × ℕ)
add_to k n d = put k (count_of (get k d) + n) d

-- users per team
unfoldable pub member_counts : List User → List (Option ℕ × ℕ) → List (Option ℕ × ℕ)
unfolding add_to
member_counts [] d = d
member_counts (u ∷ us) d = member_counts us (add_to u.team_id 1 d)

-- bytes per team, of the tunnels that have an agent
unfoldable pub usage_by_team : Panel → List Tunnel → List (Option ℕ × ℕ) → List (Option ℕ × ℕ)
unfolding add_to
usage_by_team p [] d = d
usage_by_team p (t ∷ ts) d = elim (get_agent p t.agent_id) [
  | none ↦ usage_by_team p ts d
  | some a ↦ usage_by_team p ts (add_to a.team_id (t.bytes_in + t.bytes_out) d)
]

abbrev label_of_team : Option Team → Option Text
label_of_team none = none
label_of_team (some t) = t.subdomain_label

-- the characters that a spreadsheet takes for the beginning of a formula
abbrev pub starts_formula : Text → Bool
starts_formula [] = false
starts_formula (c ∷ s) =
    (c == b'=') || ((c == b'+') || ((c == b'-') || ((c == b'@') || ((c == 9) || (c == 13)))))

-- `_csv_safe`, of the text of a value
unfoldable pub csv_safe : Text → Text
csv_safe s = if starts_formula s then 39 ∷ s else s

module _ (decode : Text → Option Claims) where
  abbrev user_with : Panel → Option Claims → Option User
  user_with p none = none
  user_with p (some c) = get_user p c.sub

  -- `_user`: the cookie
  unfoldable pub page_user : Panel → Option Text → Option User
  page_user p none = none
  page_user p (some []) = none
  page_user p (some (c ∷ token)) = user_with p (decode (c ∷ token))

  unfoldable pub dashboard : Settings → Option Text → Panel → Page
  unfolding page_user agents_for
  dashboard s cookie p = elim (page_user p cookie) [
    | none ↦ if s.demo_mode then landing else to_login
    | some u ↦ dashboard_of u (agents_for (is_admin u.role) u p)
  ]

  unfoldable pub profile_page : Option Text → Panel → Page
  unfolding page_user
  profile_page cookie p = elim (page_user p cookie) [ none ↦ to_login | some u ↦ profile_of u ]

  unfoldable pub admin_page : Option Text → Panel → Page
  unfolding page_user usage_by_team member_counts
  admin_page cookie p = elim (page_user p cookie) [
    | none ↦ to_login
    | some u ↦
        if not (is_admin u.role)
        then to_home
        else admin_of u p.teams p.users (member_counts p.users []) (usage_by_team p p.tunnels [])
  ]

  unfoldable pub agent_detail : ℕ → Option Text → Panel → Page
  unfolding page_user
  agent_detail agent_id cookie p = elim (page_user p cookie) [
    | none ↦ to_login
    | some u ↦ elim (get_agent p agent_id) [
      | none ↦ to_home
      | some a ↦
          if not (is_admin u.role) && not (same_id a.team_id u.team_id)
          then to_home
          else agent_of u a (get_node p a.node_id) (select (λ t. t.agent_id == agent_id) p.tunnels)
              (label_of_team (get_team p a.team_id))
    ]
  ]

  unfoldable pub activity_page : Option Text → Panel → Page
  unfolding page_user agents_for
  activity_page cookie p = elim (page_user p cookie) [
    | none ↦ to_login
    | some u ↦ activity_of u (is_admin u.role) (agents_for (is_admin u.role) u p)
  ]

  unfoldable pub fleet_page : Option Text → Panel → Page
  unfolding page_user agents_for
  fleet_page cookie p = elim (page_user p cookie) [
    | none ↦ to_login
    | some u ↦ if not (is_admin u.role) then to_home else activity_of u true (agents_for true u p)
  ]

  -- `_export`, and its two endpoints: the rows that are searched
  unfoldable pub activity_export : Option Text → Panel → Page
  unfolding page_user team_filter
  activity_export cookie p = elim (page_user p cookie) [
    | none ↦ to_login
    | some u ↦ rows_of u (team_filter u)
  ]

  unfoldable pub fleet_export : Option Text → Panel → Page
  unfolding activity_export page_user
  fleet_export cookie p = elim (page_user p cookie) [
    | none ↦ to_home
    | some u ↦ if is_admin u.role then activity_export cookie p else to_home
  ]

-- the answers to a login form, with the claims of the cookie
pub data LoginPage : Type 0 where
  throttled invalid : LoginPage
  signed_in : Claims → LoginPage

module _ (verify_password : Text → Text → Bool) where
  unfoldable pub login_submit :
      ℕ → ℕ → Text → Text → Option Text → Panel → Fails → Fails × LoginPage
  login_submit now ttl email password ip p s =
      let (s', blocked) = too_many now ip s in
      if blocked then (s', throttled) else elim (credentials verify_password email password p) [
        | none ↦ (record_fail now ip s', invalid)
        | some u ↦ (clear ip s', signed_in (token_claims now ttl u))
      ]

-- `demo_login`
unfoldable pub demo_login : Settings → ℕ → ℕ → Panel → Option Claims
demo_login s now ttl p =
    if not s.demo_mode then none else elim (find (λ u. text_eq u.email demo_email) p.users) [
      | none ↦ none
      | some u ↦ some (token_claims now ttl u)
    ]
