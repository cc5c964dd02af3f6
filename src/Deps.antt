-- ===== src/Deps.antt =====
-- rctunnel-panel/rctunnel_panel/deps.py and the token functions of security.py: who is asking, and
-- what they may touch. `jwt.decode` and `jwt.encode` are third-party code and stand as parameters.
use rc_tunnel.Base.{
  both_eq, ◌∷◌, [], ℕ, ◌+◌, ◌*◌, Bool, true, false, Option, none, some, Text, codes, Result, ok,
  raise, ◌==◌, if◌then◌else◌, not_authenticated, invalid_token, user_not_found, session_expired,
  admin_required, not_found, starts_with,
}
use rc_tunnel.Models.{Panel, User, Role, admin, get_user}

abbrev pub is_admin : Role → Bool
is_admin admin = true
is_admin _ = false

unfoldable pub check_team_access : Option ℕ → User → Result (Unit {0})
check_team_access team_id u =
    if is_admin u.role
    then ok tt
    else if both_eq team_id u.team_id
    then ok tt
    else raise 404 not_found

unfoldable pub require_admin : User → Result User
require_admin u = if is_admin u.role then ok u else raise 403 admin_required

-- the claims of a token; `tv` may be missing
pub record Claims : Type 0 where
  pub sub : ℕ
  pub role : Role
  pub tv : Option ℕ
  pub iat : ℕ
  pub exp : ℕ

-- `payload.get("tv", 0)`
abbrev pub version_of : Claims → ℕ
version_of c = elim c.tv [ none ↦ 0 | some v ↦ v ]

-- `create_token`: the claims that are signed
unfoldable pub token_claims : ℕ → ℕ → User → Claims
token_claims now ttl_hours u = record {
  sub = u.id;
  role = u.role;
  tv = some u.token_version;
  iat = now;
  exp = now + ttl_hours * 3600;
}

-- the headers and cookies that `_extract_token` reads
pub record Request : Type 0 where
  pub authorization : Option Text
  pub cookie : Option Text

abbrev drop_seven : Text → Text
drop_seven (_ ∷ _ ∷ _ ∷ _ ∷ _ ∷ _ ∷ _ ∷ s) = s
drop_seven s = []

abbrev or_empty : Option Text → Text
or_empty none = []
or_empty (some s) = s

unfoldable pub extract_token : Request → Option Text
extract_token r =
    let auth = or_empty r.authorization in
    if starts_with (codes "Bearer ") auth then some (drop_seven auth) else r.cookie

module _ (decode : Text → Option Claims) where
  -- what follows a decoded token
  unfoldable pub user_of : Panel → Claims → Result User
  user_of p c = elim (get_user p c.sub) [
    | none ↦ raise 401 user_not_found
    | some u ↦ if version_of c == u.token_version then ok u else raise 401 session_expired
  ]

  unfoldable pub authenticate : Panel → Option Text → Result User
  authenticate p none = raise 401 not_authenticated
  authenticate p (some []) = raise 401 not_authenticated
  authenticate p (some (c ∷ token)) = elim (decode (c ∷ token)) [
    | none ↦ raise 401 invalid_token
    | some claims ↦ user_of p claims
  ]

  unfoldable pub current_user : Panel → Request → Result User
  unfolding authenticate user_of
  current_user p r = authenticate p (extract_token r)
