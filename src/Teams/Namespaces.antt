-- ===== src/Teams/Namespaces.antt =====
-- rctunnel-panel/rctunnel_panel/api/teams.py: the labels of the teams, one against another.
use rc_tunnel.Base.{
  ℕ, ◌≡◌, ◌≢◌, refl, sym, ◌∙◌, ap, Bool, true, false, not, ◌&&◌, Option, some, List, [], ◌∷◌, ◌++◌,
  any, find, All, Pairs, arith, ◌==◌, ok, ok-pair, >>=-elim, reject_if, Text, text_eq, option_eq,
  truthy, strip, team_name_required, team_name_exists, label_taken, none,
}
use rc_tunnel.Base.Relations.{Distinct, Pairs-append, Pairs-update, Pairs-others, find-key}
use rc_tunnel.Models.{Panel, User, Team}
use rc_tunnel.Deps.{require_admin}
use rc_tunnel.Schemas.{Patch, unset, given, TeamCreate, TeamUpdate}
use rc_tunnel.Teams.{
  is_taken, asked_or, new_team, create_team, update_team, changed, check_team, check_name,
  write_team, found_team, new_label, new_name, or_kept, others, label_text,
}

-- two teams with the same label
abbrev pub same_label : Team → Team → Bool
same_label s t = truthy s.subdomain_label && option_eq s.subdomain_label t.subdomain_label

abbrev pub Apart : Team → Team → Type 0
Apart s t = same_label s t ≡ false

-- The ids of the teams are distinct, and no two teams have the same label. A team may have none.
pub record LabelsOk (p : Panel) : Type 0 where
  pub ids : Distinct (λ t. t.id) p.teams
  pub apart : Pairs Apart p.teams

text_eq_comm : (s t : Text) → text_eq s t ≡ text_eq t s
text_eq_comm [] [] = refl
text_eq_comm [] (d ∷ t) = refl
text_eq_comm (c ∷ s) [] = refl
text_eq_comm (c ∷ s) (d ∷ t) = ground (arith, text_eq_comm s t)

labels_comm : (a b : Option Text) → truthy a && option_eq a b ≡ truthy b && option_eq b a
labels_comm none none = refl
labels_comm none (some []) = refl
labels_comm none (some (c ∷ s)) = refl
labels_comm (some []) none = refl
labels_comm (some []) (some []) = refl
labels_comm (some []) (some (d ∷ t)) = refl
labels_comm (some (c ∷ s)) none = refl
labels_comm (some (c ∷ s)) (some []) = refl
labels_comm (some (c ∷ s)) (some (d ∷ t)) = text_eq_comm (c ∷ s) (d ∷ t)

Apart-comm : (s t : Team) → Apart s t → Apart t s
Apart-comm s t h = labels_comm t.subdomain_label s.subdomain_label ∙ h

-- a label that is not taken
free-Apart :
    (row : Team) (among : Team → Bool) (teams : List Team)
    → is_taken row.subdomain_label among teams ≡ false
    → All (λ t. among t ≡ true → Apart t row) teams
unfolding is_taken
free-Apart row among [] h = tt
free-Apart row among (t ∷ teams) h = (
  λ yes. ground (
    arith,
    labels_comm t.subdomain_label row.subdomain_label,
    labels_comm row.subdomain_label t.subdomain_label,
  ),
  free-Apart row among teams (ground arith),
)

All-true :
    (P : Team → Type 0) (teams : List Team) → All (λ t. true ≡ true → P t) teams → All P teams
All-true P [] h = tt
All-true P (t ∷ teams) (ht, h) = (ht refl, All-true P teams h)

fresh-ids :
    (id : ℕ) (teams : List Team) → any (λ t. t.id == id) teams ≡ false → All (λ t. t.id ≢ id) teams
fresh-ids id [] h = tt
fresh-ids id (t ∷ teams) h = ground (arith, fresh-ids id teams)

-- what a creation that succeeds found and did
pub create_team-row :
    (u : User) (body : TeamCreate) (id now : ℕ) (p p' : Panel) (row : Team)
    → create_team u body id now p ≡ ok (p', row)
    → let label = asked_or body.subdomain_label (strip body.name) in
      (record p { teams = p.teams ++ (row ∷ []) } ≡ p')
      × (is_taken label (λ t. true) p.teams ≡ false)
      × (new_team id now (strip body.name) label body.quota_bytes ≡ row)
unfolding create_team
create_team-row u body id now p p' row h = >>=-elim (require_admin u) _ h λ v e1 h1.
    >>=-elim (reject_if (not (truthy (some (strip body.name)))) 422 team_name_required) _ h1
      λ x e2 h2.
        >>=-elim
          (reject_if (any (λ t. text_eq t.name (strip body.name)) p.teams) 409 team_name_exists) _
          h2
          λ y e3 h3.
            >>=-elim
              (reject_if
                (is_taken (asked_or body.subdomain_label (strip body.name)) (λ t. true) p.teams) 409
                (label_taken (label_text (asked_or body.subdomain_label (strip body.name)))))
              _ h3
              λ z e4 h4.
                let label = asked_or body.subdomain_label (strip body.name) in
                let (state, same) = ok-pair h4 in (rw same (sym state), ground arith, sym same)

-- If the ids of the teams are distinct and no two teams have the same nonempty label, and a team
-- with a new id is created, this still holds.
pub create_team-LabelsOk :
    (u : User) (body : TeamCreate) (id now : ℕ) (p p' : Panel) (row : Team)
    → any (λ t. t.id == id) p.teams ≡ false
    → LabelsOk p
    → create_team u body id now p ≡ ok (p', row)
    → LabelsOk p'
unfolding new_team
create_team-LabelsOk u body id now p p' row fresh ok_p h =
    let label = asked_or body.subdomain_label (strip body.name) in
    let team = new_team id now (strip body.name) label body.quota_bytes in
    let (state, free, same) = create_team-row u body id now p p' row h in
    let rows : record p { teams = p.teams ++ (team ∷ []) } ≡ p' = rw same state in
    rw (← rows) (record {
      ids = Pairs-append _ p.teams team ok_p.ids (fresh-ids id p.teams fresh);
      apart =
          Pairs-append _ p.teams team ok_p.apart
            (All-true _ p.teams (free-Apart team (λ t. true) p.teams free));
    })

-- what an update writes into the label column
changed-label :
    (p : Panel) (f : TeamUpdate) (t : Team)
    → (changed p f t).subdomain_label
      ≡ or_kept (new_label (new_name f.name) f.subdomain_label) t.subdomain_label
unfolding changed
changed-label p f t = refl

checked-label :
    (f : TeamUpdate) (t : Team) (p : Panel)
    → check_team f t p ≡ ok tt
    → is_taken (or_kept (new_label (new_name f.name) f.subdomain_label) none) (others t.id) p.teams
      ≡ false
unfolding check_team
checked-label f t p h = >>=-elim (check_name t.id (new_name f.name) p) _ h λ x e k. ground arith

kept-Apart :
    (k : ℕ) (old row : Team) (teams : List Team)
    → row.subdomain_label ≡ old.subdomain_label
    → All (λ t. t.id ≢ k → Apart t old) teams
    → All (λ t. t.id ≢ k → Apart t row) teams
kept-Apart k old row [] e h = tt
kept-Apart k old row (t ∷ teams) e (ht, h) =
    (λ other. rw e (ht other), kept-Apart k old row teams e h)

others-Apart :
    (k : ℕ) (row : Team) (teams : List Team)
    → All (λ t. others k t ≡ true → Apart t row) teams
    → All (λ t. t.id ≢ k → Apart t row) teams
others-Apart k row [] h = tt
others-Apart k row (t ∷ teams) (ht, h) = (λ other. ht (ground arith), others-Apart k row teams h)

row-Apart :
    (p : Panel) (f : TeamUpdate) (t : Team)
    → LabelsOk p
    → find (λ x. x.id == t.id) p.teams ≡ some t
    → (label : Patch Text) → new_label (new_name f.name) f.subdomain_label ≡ label
    → is_taken (or_kept label none) (others t.id) p.teams ≡ false
    → All (λ x. x.id ≢ t.id → Apart x (changed p f t)) p.teams
row-Apart p f t ok_p at_t unset e free =
    kept-Apart t.id t (changed p f t) p.teams
      (changed-label p f t ∙ ap (λ l. or_kept l t.subdomain_label) e)
      (Pairs-others (λ x. x.id) Apart Apart-comm t.id p.teams t ok_p.apart at_t)
row-Apart p f t ok_p at_t (given v) e free = others-Apart t.id (changed p f t) p.teams (
    free-Apart (changed p f t) (others t.id) p.teams
      (rw (changed-label p f t ∙ ap (λ l. or_kept l t.subdomain_label) e) free))

both_ways :
    (k : ℕ) (row : Team) (teams : List Team)
    → All (λ t. t.id ≢ k → Apart t row) teams
    → All (λ t. t.id ≢ k → Apart t row × Apart row t) teams
both_ways k row [] h = tt
both_ways k row (t ∷ teams) (ht, h) =
    (λ other. (ht other, Apart-comm t row (ht other)), both_ways k row teams h)

other-ids : (k : ℕ) (teams : List Team) → All (λ t. t.id ≢ k → (t.id ≢ k) × (k ≢ t.id)) teams
other-ids k [] = tt
other-ids k (t ∷ teams) = (λ other. (other, λ e. other (sym e)), other-ids k teams)

write_team-LabelsOk :
    (p : Panel) (t row : Team)
    → LabelsOk p
    → row.id ≡ t.id
    → All (λ x. x.id ≢ t.id → Apart x row) p.teams
    → LabelsOk (write_team t row p)
unfolding write_team
write_team-LabelsOk p t row ok_p e h = record {
  ids =
      Pairs-update (λ x. x.id) _ t.id row p.teams ok_p.ids ok_p.ids (rw e (other-ids t.id p.teams));
  apart =
      Pairs-update (λ x. x.id) Apart t.id row p.teams ok_p.ids ok_p.apart
        (both_ways t.id row p.teams h);
}

-- If the ids of the teams are distinct and no two teams have the same nonempty label, this still
-- holds after an update that succeeds, be it a rename, another label or neither.
pub update_team-LabelsOk :
    (u : User) (id : ℕ) (f : TeamUpdate) (p p' : Panel) (row : Team)
    → LabelsOk p
    → update_team u id f p ≡ ok (p', row)
    → LabelsOk p'
unfolding update_team
update_team-LabelsOk u id f p p' row ok_p h = >>=-elim (require_admin u) _ h λ v e1 h1.
    >>=-elim (found_team (find (λ t. t.id == id) p.teams)) _ h1 λ t e2 h2.
      >>=-elim (check_team f t p) _ h2 λ x e3 h3.
        let at_t : find (λ y. y.id == id) p.teams ≡ some t = unfold found_team in ground arith in
        let at_id : t.id ≡ id = find-key (λ y. y.id) id p.teams t at_t in
        let state : write_team t (changed p f t) p ≡ p' = cc in
        let at_own : find (λ y. y.id == t.id) p.teams ≡ some t =
          ap (λ k. find (λ y. y.id == k) p.teams) at_id ∙ at_t in
        rw (← state) (
          write_team-LabelsOk p t (changed p f t) ok_p (unfold changed in refl)
            (row-Apart p f t ok_p at_own _ refl (checked-label f t p e3)))
