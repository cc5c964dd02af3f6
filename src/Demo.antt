-- ===== src/Demo.antt =====
-- rctunnel-panel/rctunnel_panel/main.py: the middleware that keeps demo accounts from changing
-- anything. What it writes to the audit log is output only. A request is handled by a function from
-- the state to the new state and a status.
use rc_tunnel.Base.{
  ℕ, ◌≡◌, refl, Bool, true, false, not, ◌&&◌, Option, none, some, [], ◌∷◌, Text, codes, text_eq,
  starts_with, ok, if◌then◌else◌,
}
use rc_tunnel.Models.{Panel, User, Role, demo}
use rc_tunnel.Deps.{Claims, Request, extract_token, token_claims}
use rc_tunnel.RateLimit.{Fails}
use rc_tunnel.Auth.{login, credentials}
use rc_tunnel.Auth.Sessions.{issued}

pub data Method : Type 0 where
  get post patch put delete : Method

abbrev pub is_mutating : Method → Bool
is_mutating get = false
is_mutating _ = true

pub record HttpRequest : Type 0 where
  pub method : Method
  pub path : Text
  pub auth : Request

-- every change through the API, save enrollment and login
unfoldable pub is_mutating_api : HttpRequest → Bool
is_mutating_api r =
    is_mutating r.method
    && (starts_with (codes "/api/") r.path
        && (not (starts_with (codes "/api/agents/enroll") r.path)
            && not (text_eq r.path (codes "/api/auth/login"))))

abbrev pub is_demo : Option Role → Bool
is_demo none = false
is_demo (some demo) = true
is_demo (some _) = false

abbrev role_of : Option Claims → Option Role
role_of none = none
role_of (some c) = some c.role

module _ (decode : Text → Option Claims) where
  abbrev decoded_role : Option Text → Option Role
  decoded_role none = none
  decoded_role (some []) = none
  decoded_role (some (c ∷ token)) = role_of (decode (c ∷ token))

  unfoldable pub token_role : Request → Option Role
  token_role r = decoded_role (extract_token r)

  unfoldable pub audit_mw : (HttpRequest → Panel → Panel × ℕ) → HttpRequest → Panel → Panel × ℕ
  audit_mw call_next r p =
      if is_mutating_api r && is_demo (token_role r.auth) then (p, 403) else call_next r p

-- A request that would change something through the API, with a token whose claims a login of a
-- demo account gave, is answered with 403 and changes nothing, whatever the handler would do.
pub audit_mw-login :
    (decode : Text → Option Claims) (call_next : HttpRequest → Panel → Panel × ℕ) (r : HttpRequest)
    (verify : Text → Text → Bool) (now ttl : ℕ) (email password : Text) (ip : Option Text)
    (p q : Panel) (s : Fails) (u : User) (t : ℕ) (ts : Text) (c : Claims)
    → credentials verify email password p ≡ some u
    → u.role ≡ demo
    → (login verify now ttl email password ip p s).1 ≡ ok c
    → extract_token r.auth ≡ some (t ∷ ts)
    → decode (t ∷ ts) ≡ some c
    → is_mutating_api r ≡ true
    → audit_mw decode call_next r q ≡ (q, 403)
unfolding audit_mw token_role token_claims
audit_mw-login decode call_next r verify now ttl email password ip p q s u t ts c right at_role h
      sent good m =
    rw (m, sent, good, ← issued verify now ttl email password ip p s u c right h, at_role) refl
