-- ===== src/Startup/Tenancy.antt =====
-- rctunnel-panel/rctunnel_panel/db.py: the tenancy that a start leaves, and what keeps it from starting.
use rc_tunnel.Schemas.{TeamCreate}
use rc_tunnel.Teams.{create_team}
use rc_tunnel.Teams.Namespaces.{create_team-row}
use rc_tunnel.Base.{
  arith, Text, text_eq_refl, any-append, ◌++◌, ◌∙◌, subst, ℕ, ◌≡◌, refl, true, false, none, some,
  List, [], ◌∷◌, All, any, find, length, ◌==◌, codes, Bool-cases, inl, inr, ok, raise, >>=-elim,
  integrity_error, text_eq,
}
use rc_tunnel.Models.{Panel, Team, User, Agent}
use rc_tunnel.Startup.{
  lacks_team, seed_default_team, team_named, default_label, place_all, place_user, place_agent,
  has_this_label,
}

-- every user and every agent is in a team
abbrev pub Placed : Panel → Type 0
Placed p =
    All (λ u. lacks_team u.team_id ≡ false) p.users
    × All (λ a. lacks_team a.team_id ≡ false) p.agents

place_user-All :
    (id : ℕ) (us : List User) → All (λ u. lacks_team u.team_id ≡ false) (place_user id us)
place_user-All id [] = tt
place_user-All id (u ∷ us) = elim (Bool-cases (lacks_team u.team_id)) [
  | inl e ↦ rw e (refl, place_user-All id us)
  | inr e ↦ rw e (e, place_user-All id us)
]

place_agent-All :
    (id : ℕ) (rows : List Agent) → All (λ a. lacks_team a.team_id ≡ false) (place_agent id rows)
place_agent-All id [] = tt
place_agent-All id (a ∷ rows) = elim (Bool-cases (lacks_team a.team_id)) [
  | inl e ↦ rw e (refl, place_agent-All id rows)
  | inr e ↦ rw e (e, place_agent-All id rows)
]

place_all-Placed : (id : ℕ) (p : Panel) → Placed (place_all id p)
unfolding place_all
place_all-Placed id p = (place_user-All id p.users, place_agent-All id p.agents)

-- A start that gets past the default team leaves every user and every agent in a team, if there is
-- a user.
pub seed_default_team-Placed :
    (new_id now : ℕ) (p p' : Panel)
    → (length p.users == 0) ≡ false
    → seed_default_team new_id now p ≡ ok p'
    → Placed p'
unfolding seed_default_team
seed_default_team-Placed new_id now p p' some_user h =
    >>=-elim (team_named new_id now (codes "default") (codes "default") p) _ (rw some_user at h)
      λ (q, team) e1 h1. >>=-elim (default_label team q) _ h1 λ q' e2 h2.
        let state : place_all team.id q' ≡ p' = cc in rw (← state) (place_all-Placed team.id q')

-- A label that is taken, under another name, stops the start.
pub seed_default_team-blocked :
    (new_id now : ℕ) (p : Panel)
    → (length p.users == 0) ≡ false
    → find (λ t. text_eq t.name (codes "default")) p.teams ≡ none
    → any (has_this_label (codes "default")) p.teams ≡ true
    → seed_default_team new_id now p ≡ raise 500 integrity_error
unfolding seed_default_team team_named
seed_default_team-blocked new_id now p some_user unnamed taken =
    let refused : team_named new_id now (codes "default") (codes "default") p
        ≡ raise 500 integrity_error =
      rw (team_named, unnamed, taken) refl in
    rw (some_user, refused) refl

has_this_label_lem :
    (label : Text) (t : Team) → t.subdomain_label ≡ some label → has_this_label label t ≡ true
has_this_label_lem label t e = rw (e, text_eq_refl label) refl

-- If the creation of a team succeeds and its label is `default`, no team of the new state is named
-- `default` and there is a user, then the next start of the panel ends in an integrity error.
pub create_team-blocks :
    (u : User) (body : TeamCreate) (id now new_id later : ℕ) (p p' : Panel) (row : Team)
    → create_team u body id now p ≡ ok (p', row)
    → row.subdomain_label ≡ some (codes "default")
    → find (λ t. text_eq t.name (codes "default")) p'.teams ≡ none
    → (length p'.users == 0) ≡ false
    → seed_default_team new_id later p' ≡ raise 500 integrity_error
create_team-blocks u body id now new_id later p p' row h label unnamed some_user =
    let (state, free, same) = create_team-row u body id now p p' row h in
    let own : has_this_label (codes "default") row ≡ true =
      has_this_label_lem (codes "default") row label in
    let last : any (has_this_label (codes "default")) (p.teams ++ (row ∷ [])) ≡ true =
      any-append (has_this_label (codes "default")) p.teams (row ∷ []) ∙ ground arith in
    let taken : any (has_this_label (codes "default")) p'.teams ≡ true =
      subst (λ q. any (has_this_label (codes "default")) q.teams ≡ true) state last in
    seed_default_team-blocked new_id later p' some_user unnamed taken
