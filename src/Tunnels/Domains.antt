-- ===== src/Tunnels/Domains.antt =====
-- `_FQDN_RE`, `_check_custom_domains` and `_check_subdomain_unique`.
use rc_tunnel.Base.{
  ℕ, Bool, true, false, not, ◌&&◌, ◌||◌, Option, none, some, List, [], ◌∷◌, map, length, select,
  any, leb, ltb, ◌==◌, Text, codes, text_eq, text_member, lower, strip, split, starts_with,
  ends_with, Result, ok, raise, reject_if, ◌>>◌, too_many_domains, bad_domain, under_apex,
  domain_claimed, subdomain_taken, if◌then◌else◌,
}
use rc_tunnel.Base.Sorted.{sorted_set, text_ltb}
use rc_tunnel.Settings.{Settings}
use rc_tunnel.Models.{Panel, Tunnel, get_agent}
use rc_tunnel.Tunnels.Labels.{label_core, drop_line_feed, is_label_code, is_nonempty}

abbrev pub every : (ℕ → Bool) → Text → Bool
every p [] = true
every p (c ∷ s) = p c && every p s

abbrev pub is_letter : ℕ → Bool
is_letter c = leb b'a' c && leb c b'z'

abbrev pub drop_four : Text → Text
drop_four (_ ∷ _ ∷ _ ∷ _ ∷ s) = s
drop_four s = []

-- `xn--[a-z0-9-]{2,}|[a-z]{2,}`
unfoldable pub tld_matches : Text → Bool
tld_matches s =
    (starts_with (codes "xn--") s
      && leb 2 (length (drop_four s))
      && every is_label_code (drop_four s))
    || (leb 2 (length s) && every is_letter s)

-- one or more labels, each before a dot, and the last part
unfoldable pub parts_match : List Text → Bool
parts_match [] = false
parts_match (p ∷ []) = false
parts_match (p ∷ t ∷ []) = label_core p && tld_matches t
parts_match (p ∷ q ∷ t ∷ ps) = label_core p && parts_match (q ∷ t ∷ ps)

-- `_FQDN_RE.match(d)`
unfoldable pub fqdn_matches : Text → Bool
unfolding tld_matches parts_match
fqdn_matches d =
    let body = drop_line_feed d in
    leb 1 (length body) && leb (length body) 253 && parts_match (split b'.' body)

-- `[d.strip().lower() for d in custom_domains.split(",") if d.strip()]`
unfoldable pub domains_of : Text → List Text
domains_of s = map lower (select is_nonempty (map strip (split b',' s)))

-- the loop over the wanted domains
unfoldable pub check_domains : Text → List Text → Result (Unit {0})
check_domains apex [] = ok tt
check_domains apex (d ∷ ds) = do
  reject_if (not (fqdn_matches d)) 422 (bad_domain d)
  reject_if (text_eq d apex || ends_with (b'.' ∷ apex) d) 422 under_apex
  check_domains apex ds

-- `wanted & owned`
abbrev pub clash : List Text → Option Text → List Text
clash wanted none = []
clash wanted (some owned) = select (λ d. text_member d (domains_of owned)) wanted

-- `Tunnel.id != exclude_id`, if there is one
abbrev pub is_excluded : Option ℕ → Tunnel → Bool
is_excluded none t = false
is_excluded (some id) t = t.id == id

unfoldable pub reject_clash : List Text → Result (Unit {0})
reject_clash [] = ok tt
reject_clash (d ∷ ds) = raise 409 (domain_claimed d)

-- the loop over the tunnels
unfoldable pub check_claims : List Text → Option ℕ → List Tunnel → Result (Unit {0})
check_claims wanted exclude [] = ok tt
check_claims wanted exclude (t ∷ ts) = do
  (if is_excluded exclude t
      then ok tt
      else reject_clash (sorted_set text_ltb (clash wanted t.custom_domains)))
  check_claims wanted exclude ts

unfoldable pub check_custom_domains : Settings → Panel → Option Text → Option ℕ → Result (Unit {0})
unfolding check_domains check_claims reject_clash
check_custom_domains s p none exclude = ok tt
check_custom_domains s p (some []) exclude = ok tt
check_custom_domains s p (some (c ∷ custom)) exclude =
    let doms = domains_of (c ∷ custom) in
    do
      reject_if (ltb s.max_custom_domains (length doms)) 422 too_many_domains
      check_domains (lower s.public_domain) doms
      check_claims doms exclude p.tunnels

-- SQL's `team_id = …`, or `team_id IS NULL`
abbrev pub same_team : Option ℕ → Option ℕ → Bool
same_team none none = true
same_team (some a) (some b) = a == b
same_team _ _ = false

-- `lower(subdomain) == …`
abbrev pub lower_is : Option Text → Text → Bool
lower_is none s = false
lower_is (some t) s = text_eq (lower t) (lower s)

abbrev pub in_team : Panel → Option ℕ → Tunnel → Bool
in_team p team_id t = elim (get_agent p t.agent_id) [
  | none ↦ false
  | some a ↦ same_team a.team_id team_id
]

-- the tunnel that already has the subdomain in the team
unfoldable pub takes_subdomain : Panel → Text → Option ℕ → Option ℕ → Tunnel → Bool
takes_subdomain p sub team_id exclude t =
    lower_is t.subdomain sub && in_team p team_id t && not (is_excluded exclude t)

unfoldable pub check_subdomain_unique :
    Panel → Option Text → Option ℕ → Option ℕ → Result (Unit {0})
check_subdomain_unique p none team_id exclude = ok tt
check_subdomain_unique p (some []) team_id exclude = ok tt
check_subdomain_unique p (some (c ∷ sub)) team_id exclude =
    reject_if (any (takes_subdomain p (c ∷ sub) team_id exclude) p.tunnels) 409
      (subdomain_taken (c ∷ sub))
