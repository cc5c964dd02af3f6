-- ===== src/Scripts/Recovery.antt =====
-- rctunnel-panel/scripts/bootstrap_admin.py: the way back in for an operator. The rows are those that
-- `init_db` left.
use rc_tunnel.Base.{
  ℕ, ◌+◌, ◌≤◌, ◌≡◌, refl, ap, ◌∙◌, Bool, true, Option, none, some, List, [], ◌∷◌, ◌++◌, find,
  update, ◌==◌, Text, text_eq, text_eq_refl, rstrip, Option-cases, inl, inr, arith, raise,
  session_expired,
}
use rc_tunnel.Models.{Panel, User, admin, get_user}
use rc_tunnel.Deps.{Claims, Request, version_of, extract_token, current_user, user_of}
use rc_tunnel.Auth.{set_user, credentials}
use rc_tunnel.Auth.Sessions.{find-profile, decoded}

-- the email and the password: both arguments, or the password from standard input
unfoldable pub arguments : List Text → Text → Option (Text × Text)
arguments (email ∷ password ∷ []) line = some (email, password)
arguments (email ∷ []) line = elim (rstrip (λ c. c == 10) line) [
  | [] ↦ none
  | c ∷ s ↦ some (email, c ∷ s)
]
arguments _ line = none

module _ (hash_password : Text → Text) where
  unfoldable pub new_admin : ℕ → ℕ → Text → Text → User
  new_admin id now email password = record {
    id = id;
    email = email;
    password_hash = hash_password password;
    role = admin;
    team_id = none;
    token_version = 0;
    created_at = now;
  }

  unfoldable pub reset : Text → User → User
  reset password u = record u {
    password_hash = hash_password password;
    role = admin;
    token_version = u.token_version + 1;
  }

  unfoldable pub bootstrap_admin : ℕ → ℕ → Text → Text → Panel → Panel
  unfolding new_admin reset
  bootstrap_admin id now email password p = elim (find (λ u. text_eq u.email email) p.users) [
    | none ↦ record p { users = p.users ++ (new_admin id now email password ∷ []) }
    | some u ↦ set_user p u.id (reset password)
  ]

find-last :
    (q : User → Bool) (us : List User) (u : User)
    → find q us ≡ none
    → q u ≡ true
    → find q (us ++ (u ∷ [])) ≡ some u
find-last q [] u h k = rw k refl
find-last q (x ∷ us) u h k = ground (arith, find-last q us u)

-- a change of rows that the search does not see
find-update_id :
    (q : User → Bool) (id : ℕ) (f : User → User) (us : List User) (u : User)
    → ((x : User) → q (f x) ≡ q x)
    → find q us ≡ some u
    → u.id ≡ id
    → find q (update (λ x. x.id == id) f us) ≡ some (f u)
find-update_id q id f [] u same h k = cc
find-update_id q id f (x ∷ us) u same h k = ground (arith, same x, find-update_id q id f us u same)

module _ (verify : Text → Text → Bool) (hash : Text → Text) where
  -- After a run of the script, the email and the password that it was given are those of an
  -- administrator, whether or not there was such a user before. A password matches its own hash.
  pub bootstrap_admin-credentials :
      (id now : ℕ) (email password : Text) (p : Panel)
      → ((s : Text) → verify s (hash s) ≡ true)
      → (u : User) × (credentials verify email password
            (bootstrap_admin hash id now email password p)
          ≡ some u)
        × (u.role ≡ admin)
  unfolding bootstrap_admin credentials
  bootstrap_admin-credentials id now email password p checks =
      elim (Option-cases (find (λ u. text_eq u.email email) p.users)) [
        | inl e ↦
            let u = new_admin hash id now email password in
            let found = find-last (λ x. text_eq x.email email) p.users u e (text_eq_refl email) in
            (u, rw (bootstrap_admin, e) (rw (credentials, found) (rw (checks password) refl)), refl)
        | inr (u, e) ↦
            let found =
              find-update_id (λ x. text_eq x.email email) u.id (reset hash password) p.users u
                (λ x. refl) e refl in
            (
              reset hash password u,
              rw (bootstrap_admin, e) (rw (credentials, found) (rw (checks password) refl)),
              refl,
            )
      ]

-- out
pub bootstrap_admin-expired :
    (decode : Text → Option Claims) (r : Request) (t : ℕ) (ts : Text) (c : Claims)
    (hash : Text → Text) (id now : ℕ) (email password : Text) (p : Panel) (u : User)
    → extract_token r ≡ some (t ∷ ts)
    → decode (t ∷ ts) ≡ some c
    → find (λ x. text_eq x.email email) p.users ≡ some u
    → get_user p u.id ≡ some u
    → c.sub ≡ u.id
    → version_of c ≤ u.token_version
    → current_user decode (bootstrap_admin hash id now email password p) r
      ≡ raise 401 session_expired
unfolding bootstrap_admin user_of
bootstrap_admin-expired decode r t ts c hash id now email password p u sent good named at_u mine
      old =
    let p' = set_user p u.id (reset hash password) in
    let row : get_user p' u.id ≡ some (reset hash password u) =
      find-profile u.id (reset hash password) p.users u (λ x. refl) at_u in
    let at_c : get_user p' c.sub ≡ some (reset hash password u) = ap (get_user p') mine ∙ row in
    rw (bootstrap_admin, named)
      (decoded decode r t ts c sent good p' ∙ rw (user_of, at_c) (ground arith))
