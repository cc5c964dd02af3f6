-- ===== src/Teams.antt =====
-- rctunnel-panel/rctunnel_panel/api/teams.py: the tenants. The label of a team is the part of the
-- host names of its tunnels that sets them apart from other teams'.
pub mod Slug
pub mod Namespaces
pub mod Histories
use rc_tunnel.Base.{
  ℕ, ◌+◌, Bool, true, false, not, ◌&&◌, ◌||◌, Option, none, some, List, [], ◌∷◌, ◌++◌, any, leb,
  select, map, take, update, ◌==◌, Text, text_eq, option_eq, truthy, lower, lstrip, rstrip, strip,
  Result, ok, err, raise, reject_if, ◌>>=◌, ◌>>◌, team_not_found, user_not_found, team_name_exists,
  team_name_required, label_taken, label_is_taken, has_members, has_agents, integrity_error,
  if◌then◌else◌, find, both_eq,
}
use rc_tunnel.Models.{Panel, Team, User, Agent, get_team, get_user}
use rc_tunnel.Deps.{require_admin}
use rc_tunnel.Schemas.{Patch, unset, given, TeamCreate, TeamUpdate}
use rc_tunnel.Traffic.{usage, is_over, agents_of}

abbrev pub is_slug_code : ℕ → Bool
is_slug_code c = (leb b'a' c && leb c b'z') || (leb b'0' c && leb c b'9')

abbrev pub is_dash : ℕ → Bool
is_dash c = c == b'-'

-- `re.sub(r"[^a-z0-9]+", "-", …)`: one hyphen for each run of other characters
unfoldable pub dashed : Bool → Text → Text
dashed in_run [] = []
dashed in_run (c ∷ s) =
    let kept = dashed false s in
    let skipped = dashed true s in
    if is_slug_code c then c ∷ kept else if in_run then skipped else b'-' ∷ skipped

-- `s or None`
abbrev pub nonempty_or_none : Text → Option Text
nonempty_or_none [] = none
nonempty_or_none (c ∷ s) = some (c ∷ s)

-- `_slug`
unfoldable pub slug : Text → Option Text
unfolding dashed
slug name = nonempty_or_none (take 63 (rstrip is_dash (lstrip is_dash (dashed false (lower name)))))

-- a label that is asked for
abbrev pub slugged : Option Text → Option Text
slugged none = none
slugged (some []) = some []
slugged (some (c ∷ s)) = slug (c ∷ s)

abbrev pub asked_or : Option Text → Text → Option Text
asked_or none name = slug name
asked_or (some []) name = slug name
asked_or (some (c ∷ s)) name = slug (c ∷ s)

-- `label and` another team has it
unfoldable pub is_taken : Option Text → (Team → Bool) → List Team → Bool
is_taken label among teams =
    truthy label && any (λ t. among t && option_eq t.subdomain_label label) teams

unfoldable pub new_team : ℕ → ℕ → Text → Option Text → Option ℕ → Team
new_team id now name label quota = record {
  id = id;
  name = name;
  subdomain_label = label;
  quota_bytes = quota;
  suspended = false;
  created_at = now;
}

abbrev pub label_text : Option Text → Text
label_text none = []
label_text (some s) = s

unfoldable pub create_team : User → TeamCreate → ℕ → ℕ → Panel → Result (Panel × Team)
unfolding new_team
create_team u body id now p = do
  _ ← require_admin u
  let name = strip body.name
  reject_if (not (truthy (some name))) 422 team_name_required
  reject_if (any (λ t. text_eq t.name name) p.teams) 409 team_name_exists
  let label = asked_or body.subdomain_label name
  reject_if (is_taken label (λ t. true) p.teams) 409 (label_taken (label_text label))
  let team = new_team id now name label body.quota_bytes
  ok (record p { teams = p.teams ++ (team ∷ []) }, team)

abbrev or_empty : Option Text → Text
or_empty none = []
or_empty (some s) = s

-- `fields["name"]`
abbrev pub new_name : Patch Text → Option Text
new_name unset = none
new_name (given v) = some (strip (or_empty v))

-- what is checked of a new name
unfoldable pub check_name : ℕ → Option Text → Panel → Result (Unit {0})
check_name id none p = ok tt
check_name id (some name) p = do
  reject_if (not (truthy (some name))) 422 team_name_required
  reject_if (any (λ t. text_eq t.name name && not (t.id == id)) p.teams) 409 team_name_exists

-- `fields["subdomain_label"]`: a rename that does not give one derives it from the name
unfoldable pub new_label : Option Text → Patch Text → Patch Text
new_label name (given label) = given (slugged label)
new_label none unset = unset
new_label (some name) unset = given (slugged (slug name))

abbrev pub or_kept : Patch Text → Option Text → Option Text
or_kept unset old = old
or_kept (given v) old = v

abbrev quota_or : Patch ℕ → Option ℕ → Option ℕ
quota_or unset old = old
quota_or (given v) old = v

abbrev name_or : Option Text → Text → Text
name_or none old = old
name_or (some v) old = v

abbrev pub others : ℕ → Team → Bool
others id t = not (t.id == id)

-- the row that is written, whose suspension follows from its quota
unfoldable pub changed : Panel → TeamUpdate → Team → Team
changed p f t =
    let quota = quota_or f.quota_bytes t.quota_bytes in
    let name = new_name f.name in
    record t {
      name = name_or name t.name;
      subdomain_label = or_kept (new_label name f.subdomain_label) t.subdomain_label;
      quota_bytes = quota;
      suspended = is_over quota (usage p t.id);
    }

-- the checks of `update_team`. The UNIQUE column also refuses a second empty label.
unfoldable pub check_team : TeamUpdate → Team → Panel → Result (Unit {0})
check_team f t p = do
  check_name t.id (new_name f.name) p
  let label = or_kept (new_label (new_name f.name) f.subdomain_label) none
  reject_if (is_taken label (others t.id) p.teams) 409 label_is_taken
  reject_if
      (option_eq label (some [])
        && any (λ x. others t.id x && option_eq x.subdomain_label label) p.teams)
      500 integrity_error

unfoldable pub found_team : Option Team → Result Team
found_team none = raise 404 team_not_found
found_team (some t) = ok t

abbrev same_flag : Bool → Bool → Bool
same_flag true b = b
same_flag false b = not b

abbrev bump_team : Option ℕ → Agent → Agent
bump_team team_id a =
    if both_eq a.team_id team_id then record a { generation = a.generation + 1 } else a

-- the agents of a team whose label changed must register anew, and are told; they are also told if
-- the suspension changed
unfoldable pub write_team : Team → Team → Panel → Panel
write_team old row p =
    let relabelled = not (option_eq old.subdomain_label row.subdomain_label) in
    let resumed = not (same_flag old.suspended row.suspended) in
    record p {
      teams = update (λ t. t.id == old.id) (λ _. row) p.teams;
      agents = if relabelled then map (bump_team (some old.id)) p.agents else p.agents;
      notified =
          if relabelled || resumed
          then p.notified ++ agents_of (old.id ∷ []) p.agents
          else p.notified;
    }

unfoldable pub update_team : User → ℕ → TeamUpdate → Panel → Result (Panel × Team)
update_team u id f p = do
  _ ← require_admin u
  t ← found_team (find (λ t. t.id == id) p.teams)
  check_team f t p
  ok (write_team t (changed p f t) p, changed p f t)

unfoldable pub delete_team : User → ℕ → Panel → Result Panel
delete_team u id p = do
  _ ← require_admin u
  t ← found_team (find (λ t. t.id == id) p.teams)
  reject_if (any (λ x. both_eq x.team_id (some id)) p.users) 409 has_members
  reject_if (any (λ x. both_eq x.team_id (some id)) p.agents) 409 has_agents
  ok (record p { teams = select (λ t. not (t.id == id)) p.teams })

unfoldable pub found_user : Option User → Result User
found_user none = raise 404 user_not_found
found_user (some u) = ok u

unfoldable pub add_member : User → ℕ → ℕ → Panel → Result Panel
add_member u team_id user_id p = do
  _ ← require_admin u
  t ← found_team (find (λ t. t.id == team_id) p.teams)
  x ← found_user (get_user p user_id)
  ok (record p {
    users = update (λ y. y.id == user_id) (λ y. record y { team_id = some team_id }) p.users;
  })

unfoldable pub my_team : Panel → User → Option Team
my_team p u = get_team p u.team_id
