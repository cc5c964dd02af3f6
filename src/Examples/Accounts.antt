-- ===== src/Examples/Accounts.antt =====
-- Users, sessions and teams.
use rc_tunnel.Base.{
  ◌≡◌, refl, true, Bool, none, some, [], ◌∷◌, codes, Text, Option, arith, ok, raise,
  session_expired, text_eq,
}
use rc_tunnel.Models.{Panel, admin}
use rc_tunnel.Deps.{Claims, Request, current_user, token_claims, extract_token}
use rc_tunnel.Schemas.{unset, given, ProfileUpdate, TeamUpdate}
use rc_tunnel.RateLimit.{Fails}
use rc_tunnel.Auth.{login, update_me, credentials, delete_user, update_user_role}
use rc_tunnel.Auth.Sessions.{login-current_user, update_me-expired}
use rc_tunnel.Auth.Admins.{has_admin}
use rc_tunnel.Auth.Histories.{removes, sets_role, role_requests, role_requests-has_admin}
use rc_tunnel.Teams.Namespaces.{LabelsOk}
use rc_tunnel.Teams.Histories.{posts, patches, deletes, team_requests, team_requests-LabelsOk}
use rc_tunnel.Examples.Data.{panel, root, ann}

-- passwords are kept as they are
abbrev check : Text → Text → Bool
check = text_eq

abbrev keep : Text → Text
keep s = s

abbrev claims : Claims
claims = token_claims 100 24 ann

-- every token says the same
abbrev reads : Text → Option Claims
reads t = some claims

abbrev request : Request
request = record { authorization = none; cookie = some (codes "t") }

sent_here : extract_token request ≡ some (codes "t")
unfolding extract_token
sent_here = refl

right_here : credentials check (codes "ann@x.io") (codes "pw") panel ≡ some ann
unfolding credentials
right_here = refl

logged_in : (login check 100 24 (codes "ann@x.io") (codes "pw") none panel []).1 ≡ ok claims
unfolding login rc_tunnel.RateLimit.guard rc_tunnel.RateLimit.too_many credentials
logged_in = refl

login-current_user_example : current_user reads panel request ≡ ok ann
login-current_user_example =
    login-current_user reads request b't' [] claims sent_here refl check 100 24 (codes "ann@x.io")
      (codes "pw") none panel [] ann right_here refl logged_in

abbrev new_password : ProfileUpdate
new_password = record {
  email = none;
  current_password = some (codes "pw");
  new_password = some (codes "pw2");
}

abbrev changed_panel : Panel
changed_panel = record panel {
  users = root ∷ record ann { password_hash = codes "pw2"; token_version = 4 } ∷ [];
}

changed_here : update_me check keep ann new_password panel ≡ ok changed_panel
unfolding update_me rc_tunnel.Auth.email_clash rc_tunnel.Auth.is_wrong rc_tunnel.Auth.profile
changed_here = refl

update_me-expired_example : current_user reads changed_panel request ≡ raise 401 session_expired
unfolding token_claims
update_me-expired_example =
    update_me-expired reads request b't' [] claims sent_here refl check keep ann new_password panel
      changed_panel refl refl refl (omega arith) changed_here

panel-LabelsOk : LabelsOk panel
panel-LabelsOk = record { ids = (tt, tt); apart = (tt, tt) }

abbrev rename : TeamUpdate
rename = record { name = given (some (codes "Zed")); subdomain_label = unset; quota_bytes = unset }

role_requests-has_admin_example :
    has_admin (role_requests (sets_role 1 2 admin ∷ removes 2 1 ∷ []) panel) ≡ true
role_requests-has_admin_example =
    role_requests-has_admin (sets_role 1 2 admin ∷ removes 2 1 ∷ []) panel refl

team_requests-LabelsOk_example : LabelsOk (
    team_requests
      (posts root (record { name = codes "Be Ta!"; subdomain_label = none; quota_bytes = none }) 2 9
        ∷ patches root 1 rename
        ∷ deletes root 2
        ∷ [])
      panel)
team_requests-LabelsOk_example =
    team_requests-LabelsOk
      (posts root (record { name = codes "Be Ta!"; subdomain_label = none; quota_bytes = none }) 2 9
        ∷ patches root 1 rename
        ∷ deletes root 2
        ∷ [])
      panel panel-LabelsOk
