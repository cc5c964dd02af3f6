-- ===== src/Auth/Histories.antt =====
-- rctunnel-panel/rctunnel_panel/api/auth.py: any number of requests on the roles of users, each by a
-- user whose row is looked up when it comes. What is refused is rolled back.
use rc_tunnel.Base.{
  ℕ, ◌≡◌, true, none, some, List, [], ◌∷◌, Option-cases, inl, inr, state_or, state_or-keeps, ◌∙◌,
  ap,
}
use rc_tunnel.Base.Relations.{find-key}
use rc_tunnel.Models.{Panel, User, Role, get_user}
use rc_tunnel.Auth.{delete_user, update_user_role}
use rc_tunnel.Auth.Admins.{has_admin, delete_user-has_admin, update_user_role-has_admin}

pub data RoleRequest : Type 0 where
  removes : ℕ → ℕ → RoleRequest
  sets_role : ℕ → ℕ → Role → RoleRequest

abbrev pub by_user : ℕ → (User → Panel) → Panel → Panel
by_user uid act p = elim (get_user p uid) [ none ↦ p | some u ↦ act u ]

unfoldable pub role_request : RoleRequest → Panel → Panel
role_request (removes uid id) p = by_user uid (λ u. state_or p (delete_user u id p)) p
role_request (sets_role uid id role) p =
    by_user uid (λ u. state_or p (update_user_role u id role p)) p

unfoldable pub role_requests : List RoleRequest → Panel → Panel
unfolding role_request
role_requests [] p = p
role_requests (r ∷ rs) p = role_requests rs (role_request r p)

by_user-has_admin :
    (uid : ℕ) (act : User → Panel) (p : Panel)
    → has_admin p ≡ true
    → ((u : User) → get_user p u.id ≡ some u → has_admin (act u) ≡ true)
    → has_admin (by_user uid act p) ≡ true
by_user-has_admin uid act p k f = elim (Option-cases (get_user p uid)) [
  | inl e ↦ rw (by_user, e) k
  | inr (u, e) ↦
      let at_id : u.id ≡ uid = find-key (λ x. x.id) uid p.users u e in
      rw (by_user, e) (f u (ap (get_user p) at_id ∙ e))
]

role_request-has_admin :
    (r : RoleRequest) (p : Panel) → has_admin p ≡ true → has_admin (role_request r p) ≡ true
unfolding role_request
role_request-has_admin (removes uid id) p k = by_user-has_admin uid _ p k (λ u h.
    state_or-keeps (λ q. has_admin q ≡ true) p (delete_user u id p) k
      (λ p' e. delete_user-has_admin u id p p' h e))
role_request-has_admin (sets_role uid id role) p k = by_user-has_admin uid _ p k (λ u h.
    state_or-keeps (λ q. has_admin q ≡ true) p (update_user_role u id role p) k
      (λ p' e. update_user_role-has_admin u id role p p' h e))

-- If there is an administrator, there is one after any number of requests that delete users and
-- change their roles, by any users, each with the row that it has when the request comes.
pub role_requests-has_admin :
    (rs : List RoleRequest) (p : Panel) → has_admin p ≡ true → has_admin (role_requests rs p) ≡ true
unfolding role_requests
role_requests-has_admin [] p k = k
role_requests-has_admin (r ∷ rs) p k =
    role_requests-has_admin rs (role_request r p) (role_request-has_admin r p k)
