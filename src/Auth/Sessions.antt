-- ===== src/Auth/Sessions.antt =====
-- rctunnel-panel/rctunnel_panel/api/auth.py, security.py and deps.py: which tokens are
-- accepted, from a login to a change of password.
use rc_tunnel.Base.{
  ℕ, ◌+◌, ◌≤◌, ◌≡◌, refl, ap, ◌∙◌, true, ◌&&◌, Option, some, List, [], ◌∷◌, find, update, arith,
  ◌==◌, ==-refl, Text, truthy, ok, raise, >>=-elim, reject_if, email_in_use, wrong_password,
  session_expired, Bool,
}
use rc_tunnel.Models.{Panel, User, get_user}
use rc_tunnel.Deps.{
  Claims, Request, version_of, token_claims, extract_token, current_user, authenticate, user_of,
}
use rc_tunnel.Schemas.{ProfileUpdate}
use rc_tunnel.RateLimit.{Fails}
use rc_tunnel.Auth.{
  set_user, credentials, login, login_checked, update_me, profile, with_password, email_clash,
  is_wrong,
}

pub issued :
    (verify : Text → Text → Bool) (now ttl : ℕ) (email password : Text) (ip : Option Text)
    (p : Panel) (s : Fails) (u : User) (c : Claims)
    → credentials verify email password p ≡ some u
    → (login verify now ttl email password ip p s).1 ≡ ok c
    → token_claims now ttl u ≡ c
unfolding login login_checked
issued verify now ttl email password ip p s u c right h = ground arith

pub find-profile :
    (k : ℕ) (f : User → User) (users : List User) (u : User)
    → ((x : User) → (f x).id ≡ x.id)
    → find (λ x. x.id == k) users ≡ some u
    → find (λ x. x.id == k) (update (λ x. x.id == k) f users) ≡ some (f u)
find-profile k f [] u keeps h = cc
find-profile k f (x ∷ users) u keeps h = ground (arith, keeps x, find-profile k f users u keeps)

profile-id :
    (verify : Text → Text → Bool) (hash : Text → Text) (body : ProfileUpdate) (u : User)
    → (profile verify hash body u).id ≡ u.id
unfolding profile with_password
profile-id verify hash body u = ground arith

profile-token_version :
    (verify : Text → Text → Bool) (hash : Text → Text) (body : ProfileUpdate) (u : User)
    → truthy body.new_password ≡ true
    → (profile verify hash body u).token_version ≡ u.token_version + 1
unfolding profile with_password
profile-token_version verify hash body u new = ground arith

module _ (decode : Text → Option Claims) (r : Request) (t : ℕ) (ts : Text) (c : Claims)
    (sent : extract_token r ≡ some (t ∷ ts)) (good : decode (t ∷ ts) ≡ some c) where
  -- what becomes of a request whose token decodes to these claims
  pub decoded : (p : Panel) → current_user decode p r ≡ user_of decode p c
  unfolding current_user authenticate
  decoded p = rw (current_user, sent, authenticate, good) refl

  -- The claims of a successful login, in a request whose token decodes to them, are accepted as
  -- those of the user who logged in, if the user's id finds that user's row.
  pub login-current_user :
      (verify : Text → Text → Bool) (now ttl : ℕ) (email password : Text) (ip : Option Text)
      (p : Panel) (s : Fails) (u : User)
      → credentials verify email password p ≡ some u
      → get_user p u.id ≡ some u
      → (login verify now ttl email password ip p s).1 ≡ ok c
      → current_user decode p r ≡ ok u
  unfolding login user_of
  login-current_user verify now ttl email password ip p s u right at_u h =
      let same = issued verify now ttl email password ip p s u c right h in
      decoded p
      ∙ rw (← same)
          (unfold token_claims in rw (user_of, at_u) (ground (arith, ==-refl u.token_version)))

  -- After a successful change of password, `current_user`, which the handlers of the API ask who
  -- the user is, refuses with 401 a request whose token carries the user's id and a version that
  -- is not above the user's version before the change, if the user's row stands in the table. The
  -- pages, which find their user in another way, are not part of this.
  pub update_me-expired :
      (verify : Text → Text → Bool) (hash : Text → Text) (u : User) (body : ProfileUpdate)
      (p p' : Panel)
      → get_user p u.id ≡ some u
      → truthy body.new_password ≡ true
      → c.sub ≡ u.id
      → version_of c ≤ u.token_version
      → update_me verify hash u body p ≡ ok p'
      → current_user decode p' r ≡ raise 401 session_expired
  unfolding update_me user_of
  update_me-expired verify hash u body p p' at_u new mine old h =
      >>=-elim (reject_if (email_clash verify body.email u p) 409 email_in_use) _ h λ x e1 h1.
        >>=-elim
          (reject_if (truthy body.new_password && is_wrong verify body.current_password u) 403
            wrong_password)
          _ h1
          λ y e2 h2.
            let state : set_user p u.id (profile verify hash body) ≡ p' = cc in
            let row =
              find-profile u.id (profile verify hash body) p.users u (profile-id verify hash body)
                at_u in
            let at_u' : get_user p' u.id ≡ some (profile verify hash body u) = rw (← state) row in
            let at_c : get_user p' c.sub ≡ some (profile verify hash body u) =
              ap (λ k. get_user p' k) mine ∙ at_u' in
            decoded p'
            ∙ rw (user_of, at_c) (ground (arith, profile-token_version verify hash body u new))
