-- ===== src/Auth.antt =====
-- rctunnel-panel/rctunnel_panel/api/auth.py: sessions and accounts. Hashing and checking a password
-- is third-party code and a parameter. A token is given by its claims.
pub mod Sessions
pub mod Admins
pub mod Histories
use rc_tunnel.Base.{
  ℕ, ◌+◌, Bool, true, false, not, ◌&&◌, Option, none, some, List, [], ◌∷◌, ◌++◌, any, find, length,
  select, update, ◌==◌, Text, text_eq, truthy, Result, ok, err, raise, reject_if, ◌>>=◌, ◌>>◌,
  email_in_use, wrong_password, invalid_credentials, user_not_found, own_account, last_admin,
  if◌then◌else◌,
}
use rc_tunnel.Models.{Panel, User, Role, admin, get_user}
use rc_tunnel.Deps.{Claims, is_admin, require_admin, token_claims}
use rc_tunnel.Schemas.{UserCreate, ProfileUpdate}
use rc_tunnel.RateLimit.{Fails, guard, record_fail, clear}

abbrev pub set_user : Panel → ℕ → (User → User) → Panel
set_user p id f = record p { users = update (λ x. x.id == id) f p.users }

unfoldable pub found_user : Option User → Result User
found_user none = raise 404 user_not_found
found_user (some u) = ok u

module _ (verify_password : Text → Text → Bool) where
  -- the user, if the password is right
  unfoldable pub credentials : Text → Text → Panel → Option User
  credentials email password p = elim (find (λ u. text_eq u.email email) p.users) [
    | none ↦ none
    | some u ↦ if verify_password password u.password_hash then some u else none
  ]

  unfoldable pub login_checked :
      ℕ → ℕ → Text → Text → Option Text → Panel → Fails → Fails × Result Claims
  login_checked now ttl email password ip p s = elim (credentials email password p) [
    | none ↦ (record_fail now ip s, raise 401 invalid_credentials)
    | some u ↦ (clear ip s, ok (token_claims now ttl u))
  ]

  unfoldable pub login : ℕ → ℕ → Text → Text → Option Text → Panel → Fails → Fails × Result Claims
  unfolding login_checked
  login now ttl email password ip p s =
      let (s', r) = guard now ip s in
      elim r [ err e ↦ (s', err e) | ok v ↦ login_checked now ttl email password ip p s' ]

  -- `not body.current_password or not verify_password(…)`
  unfoldable pub is_wrong : Option Text → User → Bool
  is_wrong none u = true
  is_wrong (some []) u = true
  is_wrong (some (c ∷ s)) u = not (verify_password (c ∷ s) u.password_hash)

  -- `body.email and body.email != user.email`, and another user has it
  unfoldable pub email_clash : Option Text → User → Panel → Bool
  email_clash none u p = false
  email_clash (some []) u p = false
  email_clash (some (c ∷ s)) u p =
      not (text_eq (c ∷ s) u.email)
      && any (λ x. text_eq x.email (c ∷ s) && not (x.id == u.id)) p.users

  abbrev pub email_or : Option Text → Text → Text
  email_or none old = old
  email_or (some []) old = old
  email_or (some (c ∷ s)) old = c ∷ s

  module _ (hash_password : Text → Text) where
    -- a new password invalidates the other sessions
    unfoldable pub with_password : Option Text → User → User
    with_password none u = u
    with_password (some []) u = u
    with_password (some (c ∷ s)) u = record u {
      password_hash = hash_password (c ∷ s);
      token_version = u.token_version + 1;
    }

    unfoldable pub profile : ProfileUpdate → User → User
    unfolding with_password
    profile body u =
        with_password body.new_password (record u { email = email_or body.email u.email })

    unfoldable pub update_me : User → ProfileUpdate → Panel → Result Panel
    update_me u body p = do
      reject_if (email_clash body.email u p) 409 email_in_use
      reject_if (truthy body.new_password && is_wrong body.current_password u) 403 wrong_password
      ok (set_user p u.id (profile body))

module _ (hash_password : Text → Text) where
  unfoldable pub new_user : ℕ → ℕ → UserCreate → User
  new_user id now body = record {
    id = id;
    email = body.email;
    password_hash = hash_password body.password;
    role = body.role;
    team_id = body.team_id;
    token_version = 0;
    created_at = now;
  }

  unfoldable pub create_user : User → UserCreate → ℕ → ℕ → Panel → Result (Panel × User)
  unfolding new_user
  create_user u body id now p = do
    _ ← require_admin u
    reject_if (any (λ x. text_eq x.email body.email) p.users) 409 email_in_use
    let row = new_user id now body
    ok (record p { users = p.users ++ (row ∷ []) }, row)

unfoldable pub delete_user : User → ℕ → Panel → Result Panel
delete_user u id p = do
  _ ← require_admin u
  reject_if (id == u.id) 409 own_account
  x ← found_user (get_user p id)
  ok (record p { users = select (λ y. not (y.id == id)) p.users })

-- the admins other than this user
unfoldable pub other_admins : ℕ → List User → ℕ
other_admins id users = length (select (λ x. is_admin x.role && not (x.id == id)) users)

unfoldable pub update_user_role : User → ℕ → Role → Panel → Result Panel
unfolding other_admins
update_user_role u id role p = do
  _ ← require_admin u
  x ← found_user (get_user p id)
  reject_if (is_admin x.role && (not (is_admin role) && other_admins id p.users == 0)) 409
      last_admin
  ok (set_user p id (λ y. record y { role = role }))
