-- ===== src/Teams/Histories.antt =====
-- rctunnel-panel/rctunnel_panel/api/teams.py: any number of requests for teams, one after another.
-- What is refused is rolled back, as is a row whose id is taken.
use rc_tunnel.Base.{
  >>=-elim, ℕ, ◌≡◌, not, List, [], ◌∷◌, ◌==◌, any, find, select, if◌then◌else◌, ok, row_or,
  state_or, row_or-keeps, state_or-keeps, Bool-cases, inl, inr, reject_if, both_eq, has_members,
  has_agents, some,
}
use rc_tunnel.Base.Relations.{Pairs-select}
use rc_tunnel.Models.{Panel, User}
use rc_tunnel.Deps.{require_admin}
use rc_tunnel.Schemas.{TeamCreate, TeamUpdate}
use rc_tunnel.Teams.{create_team, update_team, delete_team, found_team}
use rc_tunnel.Teams.Namespaces.{LabelsOk, create_team-LabelsOk, update_team-LabelsOk}

delete_team-LabelsOk :
    (u : User) (id : ℕ) (p p' : Panel) → LabelsOk p → delete_team u id p ≡ ok p' → LabelsOk p'
unfolding delete_team
delete_team-LabelsOk u id p p' k h = >>=-elim (require_admin u) _ h λ v e1 h1.
    >>=-elim (found_team (find (λ t. t.id == id) p.teams)) _ h1 λ t e2 h2.
      >>=-elim (reject_if (any (λ x. both_eq x.team_id (some id)) p.users) 409 has_members) _ h2
        λ x e3 h3.
          >>=-elim (reject_if (any (λ x. both_eq x.team_id (some id)) p.agents) 409 has_agents) _ h3
            λ y e4 h4.
              let state : record p { teams = select (λ t. not (t.id == id)) p.teams } ≡ p' = cc in
              rw (← state) (record {
                ids = Pairs-select _ _ p.teams k.ids;
                apart = Pairs-select _ _ p.teams k.apart;
              })

pub data TeamRequest : Type 0 where
  posts : User → TeamCreate → ℕ → ℕ → TeamRequest
  patches : User → ℕ → TeamUpdate → TeamRequest
  deletes : User → ℕ → TeamRequest

unfoldable pub team_request : TeamRequest → Panel → Panel
team_request (posts u body id now) p =
    if any (λ t. t.id == id) p.teams then p else row_or p (create_team u body id now p)
team_request (patches u id f) p = row_or p (update_team u id f p)
team_request (deletes u id) p = state_or p (delete_team u id p)

unfoldable pub team_requests : List TeamRequest → Panel → Panel
unfolding team_request
team_requests [] p = p
team_requests (r ∷ rs) p = team_requests rs (team_request r p)

team_request-LabelsOk : (r : TeamRequest) (p : Panel) → LabelsOk p → LabelsOk (team_request r p)
unfolding team_request
team_request-LabelsOk (posts u body id now) p k =
    elim (Bool-cases (any (λ t. t.id == id) p.teams)) [
      | inl taken ↦ rw taken k
      | inr fresh ↦ rw fresh (
          row_or-keeps LabelsOk p (create_team u body id now p) k
            (λ p' row h. create_team-LabelsOk u body id now p p' row fresh k h))
    ]
team_request-LabelsOk (patches u id f) p k =
    row_or-keeps LabelsOk p (update_team u id f p) k
      (λ p' row h. update_team-LabelsOk u id f p p' row k h)
team_request-LabelsOk (deletes u id) p k =
    state_or-keeps LabelsOk p (delete_team u id p) k (λ p' h. delete_team-LabelsOk u id p p' k h)

-- If the ids of the teams are distinct and no two teams have the same nonempty label, this still
-- holds after any number of requests that create, change and delete teams, be it a rename, another
-- label, none or the empty one. What is refused is rolled back, and a row whose id is taken is not
-- written.
pub team_requests-LabelsOk :
    (rs : List TeamRequest) (p : Panel) → LabelsOk p → LabelsOk (team_requests rs p)
unfolding team_requests
team_requests-LabelsOk [] p k = k
team_requests-LabelsOk (r ∷ rs) p k =
    team_requests-LabelsOk rs (team_request r p) (team_request-LabelsOk r p k)
