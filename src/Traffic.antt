-- ===== src/Traffic.antt =====
-- rctunnel-panel/rctunnel_panel/control/traffic.py: bytes per tunnel, and the suspension of teams
-- that are over their quota. The engine's statistics are an argument: the entries that
-- `/api/stats` answered, none if it was down.
pub mod Billing
pub mod Quota
use rc_tunnel.Base.{
  ℕ, ◌+◌, ◌-◌, ◌≡◌, ◌↔◌, Bool, true, false, not, ◌&&◌, Option, none, some, List, [], ◌∷◌, ◌++◌, map,
  select, any, leb, ltb, ◌==◌, member, Text, codes, str, text_eq, text_eq_iff, if◌then◌else◌, arith,
}
use rc_tunnel.Base.Dict.{Eq, get, put}
use rc_tunnel.Models.{Panel, Team, Agent, Tunnel, get_agent}
use rc_tunnel.Protocol.{agent_cn}

-- an entry of the statistics
pub record StatEntry : Type 0 where
  pub cn : Text
  pub name : Text
  pub bytes_in : ℕ
  pub bytes_out : ℕ

-- keyed by the owner's name in its certificate, and the proxy's name
abbrev pub Traffic : Type 0
Traffic = List ((Text × Text) × (ℕ × ℕ))

abbrev pub pair_eq : Text × Text → Text × Text → Bool
pair_eq (a, b) (c, d) = text_eq a c && text_eq b d

pub pair_eq_iff : (x y : Text × Text) → (pair_eq x y ≡ true) ↔ (x ≡ y)
pair_eq_iff (a, b) (c, d) = ground (arith, text_eq_iff a c, text_eq_iff b d)

instance abbrev pub pair_key : Eq (Text × Text)
pair_key = record { beq = pair_eq; beq_iff = pair_eq_iff }

-- a later entry of the same key wins
unfoldable pub collect : Traffic → List StatEntry → Traffic
collect out [] = out
collect out (e ∷ es) = collect (put (e.cn, e.name) (e.bytes_in, e.bytes_out) out) es

-- what a counter has grown by; one that went back was reset
unfoldable pub delta : ℕ → ℕ → ℕ
delta now last = if leb last now then now - last else now

unfoldable pub bill : ℕ × ℕ → Tunnel → Tunnel
unfolding delta
bill (ti, to) t = record t {
  bytes_in = t.bytes_in + delta ti t.last_today_in;
  bytes_out = t.bytes_out + delta to t.last_today_out;
  last_today_in = ti;
  last_today_out = to;
}

-- the key of the sample that a tunnel is billed for
abbrev pub key_of : Tunnel → Text × Text
key_of t = (agent_cn t.agent_id, codes "t" ++ str t.id)

unfoldable pub account : Traffic → Tunnel → Tunnel
account traffic t = elim (get (key_of t) traffic) [ none ↦ t | some sample ↦ bill sample t ]

abbrev of_team : Option Agent → ℕ → Bool
of_team none team_id = false
of_team (some a) team_id = elim a.team_id [ none ↦ false | some k ↦ k == team_id ]

-- the bytes of a team's tunnels
unfoldable pub usage_of : Panel → ℕ → List Tunnel → ℕ
usage_of p team_id [] = 0
usage_of p team_id (t ∷ ts) =
    let rest = usage_of p team_id ts in
    if of_team (get_agent p t.agent_id) team_id then t.bytes_in + t.bytes_out + rest else rest

unfoldable pub usage : Panel → ℕ → ℕ
unfolding usage_of
usage p team_id = usage_of p team_id p.tunnels

-- `quota is not None and usage > quota`
unfoldable pub is_over : Option ℕ → ℕ → Bool
is_over none used = false
is_over (some quota) used = ltb quota used

unfoldable pub settle : Panel → Team → Team
unfolding usage is_over
settle p team = record team { suspended = is_over team.quota_bytes (usage p team.id) }

abbrev differs : Bool → Bool → Bool
differs true b = not b
differs false b = b

-- the teams whose flag changes
unfoldable pub flipped_of : Panel → List Team → List ℕ
unfolding usage is_over
flipped_of p [] = []
flipped_of p (team ∷ teams) =
    let rest = flipped_of p teams in
    if differs (is_over team.quota_bytes (usage p team.id)) team.suspended
    then team.id ∷ rest
    else rest

abbrev pub is_among : List ℕ → Option ℕ → Bool
is_among ids none = false
is_among ids (some k) = member k ids

-- the agents of these teams, which are notified
unfoldable pub agents_of : List ℕ → List Agent → List ℕ
agents_of ids rows = map (λ a. a.id) (select (λ a. is_among ids a.team_id) rows)

unfoldable pub enforce : Panel → Panel
enforce p = record p {
  teams = map (settle p) p.teams;
  notified = p.notified ++ agents_of (flipped_of p p.teams) p.agents;
}

unfoldable pub poll_once : List StatEntry → Panel → Panel
unfolding collect enforce
poll_once stats p = enforce (record p { tunnels = map (account (collect [] stats)) p.tunnels })
