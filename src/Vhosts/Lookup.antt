-- ===== src/Vhosts/Lookup.antt =====
-- rctunnel-panel/rctunnel_panel/web/routes.py and control/protocol.py: how each
-- spells the host names of a tunnel.
use rc_tunnel.Base.{
  ◌≡◌, refl, sym, subst, ap, Bool, true, false, Option, none, some, List, [], ◌∷◌, ◌++◌, map, arith,
  Bool-cases, inl, inr, Text, text_eq, text_eq→eq, text_eq_refl, text_member, lower, Lacks,
}
use rc_tunnel.Base.Splitting.{split-Lacks}
use rc_tunnel.Settings.{Settings}
use rc_tunnel.Models.{Panel, Team, Tunnel, is_domain_type}
use rc_tunnel.Protocol.{fqdns_of, suffix_of}
use rc_tunnel.Manager.{label_of}
use rc_tunnel.Vhosts.{team_of, names_of, lookup_in, lookup_by_host}

abbrev pub is_found : Option (Tunnel × Option Team) → Bool
is_found none = false
is_found (some r) = true

map-lower-append : (xs ys : List Text) → map lower xs ++ map lower ys ≡ map lower (xs ++ ys)
map-lower-append [] ys = refl
map-lower-append (x ∷ xs) ys = ap (λ zs. lower x ∷ zs) (map-lower-append xs ys)

names_of-fqdns_of :
    (apex : Text) (p : Panel) (t : Tunnel)
    → names_of apex p t
      ≡ map lower (fqdns_of t.subdomain t.custom_domains (suffix_of (label_of (team_of p t)) apex))
unfolding names_of fqdns_of
names_of-fqdns_of apex p t = map-lower-append _ _

pub member-lower :
    (h : Text) (hs : List Text)
    → text_member h hs ≡ true
    → text_member (lower h) (map lower hs) ≡ true
member-lower h [] m = cc
member-lower h (g ∷ hs) m = elim (Bool-cases (text_eq h g)) [
  | inl e ↦ rw (text_eq→eq h g e, text_eq_refl (lower g)) refl
  | inr e ↦ ground (arith, member-lower h hs (let k = rw e at m in k))
]

lookup_in-append :
    (apex : Text) (p : Panel) (host : Text) (before after : List Tunnel) (t : Tunnel)
    → is_domain_type t.type ≡ true
    → text_member host (names_of apex p t) ≡ true
    → is_found (lookup_in apex p host (before ++ (t ∷ after))) ≡ true
unfolding lookup_in
lookup_in-append apex p host [] after t d m = rw (d, m) refl
lookup_in-append apex p host (b ∷ before) after t d m =
    ground (arith, lookup_in-append apex p host before after t d m)

-- Every name that a configuration gives to an http or https tunnel of the table, with the public
-- domain as the node's host, is found by the lookup of public hosts, whatever its case. No `:`
-- stands in the name.
pub lookup_by_host-fqdns_of :
    (s : Settings) (p : Panel) (t : Tunnel) (before after : List Tunnel) (h : Text)
    → p.tunnels ≡ before ++ (t ∷ after)
    → is_domain_type t.type ≡ true
    → text_member h
        (fqdns_of t.subdomain t.custom_domains (suffix_of (label_of (team_of p t)) s.public_domain))
      ≡ true
    → Lacks b':' (lower h)
    → is_found (lookup_by_host s p h) ≡ true
unfolding lookup_by_host names_of
lookup_by_host-fqdns_of s p t before after h rows d m plain =
    let here =
      lookup_in-append s.public_domain p (lower h) before after t d
        (rw (names_of-fqdns_of s.public_domain p t) (member-lower h _ m)) in
    rw (split-Lacks b':' (lower h) plain)
      (subst (λ ts. is_found (lookup_in s.public_domain p (lower h) ts) ≡ true) (sym rows) here)
