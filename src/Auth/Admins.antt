-- ===== src/Auth/Admins.antt =====
-- rctunnel-panel/rctunnel_panel/api/auth.py: which requests touch the role of an administrator.
use rc_tunnel.Base.{
  ℕ, ◌≡◌, Bool, true, false, not, ◌&&◌, Option, some, List, [], ◌∷◌, any, find, select, update,
  arith, ◌==◌, ok, >>=-elim, reject_if, Bool-cases, inl, inr, own_account, last_admin,
}
use rc_tunnel.Models.{Panel, User, Role, get_user}
use rc_tunnel.Deps.{is_admin, require_admin}
use rc_tunnel.Auth.{delete_user, update_user_role, other_admins, found_user, set_user}

-- whether some user is a global administrator
abbrev pub has_admin : Panel → Bool
has_admin p = any (λ x. is_admin x.role) p.users

module _ (k id : ℕ) (u : User) (is_one : is_admin u.role ≡ true) (other : (id == k) ≡ false) where
  kept-admin :
      (users : List User)
      → find (λ x. x.id == k) users ≡ some u
      → any (λ x. is_admin x.role) (select (λ y. not (y.id == id)) users) ≡ true
  kept-admin [] h = cc
  kept-admin (x ∷ users) h = ground (arith, kept-admin users)

  unchanged-admin :
      (role : Role) (users : List User)
      → find (λ x. x.id == k) users ≡ some u
      → any (λ x. is_admin x.role) (update (λ x. x.id == id) (λ y. record y { role = role }) users)
        ≡ true
  unchanged-admin role [] h = cc
  unchanged-admin role (x ∷ users) h = ground (arith, unchanged-admin role users)

promoted :
    (id : ℕ) (role : Role) (x : User) (users : List User)
    → find (λ x. x.id == id) users ≡ some x
    → is_admin role ≡ true
    → any (λ x. is_admin x.role) (update (λ x. x.id == id) (λ y. record y { role = role }) users)
      ≡ true
promoted id role x [] h a = cc
promoted id role x (y ∷ users) h a = ground (arith, promoted id role x users)

others-stay :
    (id : ℕ) (role : Role) (users : List User)
    → (other_admins id users == 0) ≡ false
    → any (λ x. is_admin x.role) (update (λ x. x.id == id) (λ y. record y { role = role }) users)
      ≡ true
unfolding other_admins
others-stay id role [] h = cc
others-stay id role (x ∷ users) h = ground (arith, others-stay id role users)

asked-admin : (u v : User) → require_admin u ≡ ok v → is_admin u.role ≡ true
unfolding require_admin
asked-admin u v h = ground arith

found_user-ok : (o : Option User) (x : User) → found_user o ≡ ok x → o ≡ some x
unfolding found_user
found_user-ok o x h = ground arith

-- When an administrator whose row is in the table deletes a user, an administrator is left.
pub delete_user-has_admin :
    (u : User) (id : ℕ) (p p' : Panel)
    → get_user p u.id ≡ some u
    → delete_user u id p ≡ ok p'
    → has_admin p' ≡ true
unfolding delete_user
delete_user-has_admin u id p p' h k = >>=-elim (require_admin u) _ k λ v e1 k1.
    >>=-elim (reject_if (id == u.id) 409 own_account) _ k1 λ x e2 k2.
      >>=-elim (found_user (get_user p id)) _ k2 λ y e3 k3.
        let state : record p { users = select (λ y. not (y.id == id)) p.users } ≡ p' = cc in
        rw (← state) (kept-admin u.id id u (asked-admin u v e1) (ground arith) p.users h)

-- When an administrator whose row is in the table changes the role of a user, an administrator is
-- left.
pub update_user_role-has_admin :
    (u : User) (id : ℕ) (role : Role) (p p' : Panel)
    → get_user p u.id ≡ some u
    → update_user_role u id role p ≡ ok p'
    → has_admin p' ≡ true
unfolding update_user_role
update_user_role-has_admin u id role p p' h k = >>=-elim (require_admin u) _ k λ v e1 k1.
    >>=-elim (found_user (get_user p id)) _ k1 λ x e2 k2.
      >>=-elim
        (reject_if (is_admin x.role && (not (is_admin role) && other_admins id p.users == 0)) 409
          last_admin)
        _ k2
        λ y e3 k3.
          let state : set_user p id (λ z. record z { role = role }) ≡ p' = cc in
          rw (← state) (left v x e1 (found_user-ok (get_user p id) x e2) e3)
  where
    left :
        (v x : User)
        → require_admin u ≡ ok v
        → get_user p id ≡ some x
        → reject_if
            (is_admin x.role && (not (is_admin role) && other_admins id p.users == 0))
            409
            last_admin
          ≡ ok tt
        → any
            (λ x. is_admin x.role)
            (update (λ x. x.id == id) (λ y. record y { role = role }) p.users)
          ≡ true
    left v x e1 at_x e3 = elim (Bool-cases (id == u.id)) [
      | inr other ↦ unchanged-admin u.id id u (asked-admin u v e1) other role p.users h
      | inl same ↦ elim (Bool-cases (is_admin role)) [
        | inl a ↦ promoted id role x p.users at_x a
        | inr a ↦ others-stay id role p.users (ground (arith, asked-admin u v e1))
      ]
    ]
