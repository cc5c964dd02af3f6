-- ===== src/Vhosts.antt =====
-- rctunnel-panel/rctunnel_panel/web/routes.py: the lookup of a public host name, which authorizes
-- certificates on demand and chooses what the offline page says.
pub mod Lookup
use rc_tunnel.Base.{
  ℕ, Bool, true, false, not, Option, none, some, List, [], ◌∷◌, ◌++◌, map, ◌==◌, Text, text_eq,
  text_member, lower, strip, rstrip, split, ends_with, if◌then◌else◌,
}
use rc_tunnel.Settings.{Settings}
use rc_tunnel.Models.{
  Panel, Team, Agent, Tunnel, AgentStatus, online, offline, get_agent, get_team, is_domain_type,
}
use rc_tunnel.Protocol.{suffix_of, own_fqdn, custom_fqdns}
use rc_tunnel.Manager.{label_of}

-- the team of a tunnel's agent
abbrev pub team_of : Panel → Tunnel → Option Team
team_of p t = elim (get_agent p t.agent_id) [ none ↦ none | some a ↦ get_team p a.team_id ]

-- `fqdns`, each in lower case
unfoldable pub names_of : Text → Panel → Tunnel → List Text
names_of apex p t =
    map lower (own_fqdn t.subdomain (suffix_of (label_of (team_of p t)) apex))
    ++ map lower (custom_fqdns t.custom_domains)

-- `s.split(":")[0]`
abbrev pub first_part : List Text → Text
first_part [] = []
first_part (s ∷ parts) = s

unfoldable pub lookup_in : Text → Panel → Text → List Tunnel → Option (Tunnel × Option Team)
lookup_in apex p host [] = none
lookup_in apex p host (t ∷ ts) =
    let rest = lookup_in apex p host ts in
    if is_domain_type t.type
    then (if text_member host (names_of apex p t) then some (t, team_of p t) else rest)
    else rest

unfoldable pub lookup_by_host : Settings → Panel → Text → Option (Tunnel × Option Team)
unfolding lookup_in
lookup_by_host s p host =
    lookup_in s.public_domain p (first_part (split b':' (lower host))) p.tunnels

-- `domain.lower().strip().rstrip(".")`
abbrev pub asked_host : Text → Text
asked_host domain = rstrip (λ c. c == b'.') (strip (lower domain))

-- the status of the answer
unfoldable pub ondemand_check : Settings → Panel → Text → ℕ
ondemand_check s p domain =
    let host = asked_host domain in
    if text_eq host s.public_domain
    then 200
    else if not (ends_with (b'.' ∷ s.public_domain) host)
    then 403
    else elim (lookup_by_host s p host) [ none ↦ 403 | some found ↦ 200 ]

-- what the offline page says
pub data Page : Type 0 where
  limit_reached disabled agent_offline starting not_found : Page

abbrev is_suspended : Option Team → Bool
is_suspended none = false
is_suspended (some team) = team.suspended

abbrev is_up : Option Agent → Bool
is_up none = false
is_up (some a) = elim a.status [ online ↦ true | offline ↦ false ]

unfoldable pub offline_page : Settings → Panel → Text → Page
offline_page s p host = elim (lookup_by_host s p host) [
  | none ↦ not_found
  | some (t, team) ↦
      if is_suspended team
      then limit_reached
      else if not t.enabled
      then disabled
      else if not (is_up (get_agent p t.agent_id))
      then agent_offline
      else starting
]

-- the status of the page
abbrev pub page_status : Page → ℕ
page_status limit_reached = 503
page_status disabled = 503
page_status agent_offline = 502
page_status starting = 502
page_status not_found = 404
