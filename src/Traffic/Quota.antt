-- ===== src/Traffic/Quota.antt =====
-- rctunnel-panel/rctunnel_panel/control/traffic.py: what a poll bills, and which teams it suspends,
-- against a description of both that goes through no dictionary and no running sums.
use rc_tunnel.Base.{
  ℕ, ◌+◌, ◌-◌, ◌<◌, ap, fun_ext, ◌≡◌, ◌↔◌, refl, ◌∙◌, Bool, true, false, ◌&&◌, ◌||◌, Option, none,
  some, List, [], ◌∷◌, ◌++◌, map, select, All, arith, ◌==◌, ltb, Text, codes, str, text_eq,
  Option-cases, inl, inr, if◌then◌else◌,
}
use rc_tunnel.Base.Dict.{get, put, get-put}
use rc_tunnel.Models.{Panel, Team, Agent, Tunnel, get_agent}
use rc_tunnel.Protocol.{agent_cn}
use rc_tunnel.Traffic.{
  StatEntry, Traffic, pair_key, collect, delta, bill, account, usage_of, usage, is_over, settle,
  flipped_of, is_among, agents_of, enforce, poll_once,
}

abbrev or_else : Option (ℕ × ℕ) → Option (ℕ × ℕ) → Option (ℕ × ℕ)
or_else (some s) o = some s
or_else none o = o

-- the last entry of the statistics under this name of an agent and this name of a proxy
abbrev pub answered : Text → Text → List StatEntry → Option (ℕ × ℕ)
answered cn name [] = none
answered cn name (e ∷ es) =
    or_else (answered cn name es)
      (if text_eq e.cn cn && text_eq e.name name then some (e.bytes_in, e.bytes_out) else none)

-- A total with what a counter has grown by since it stood at `last`. A counter that is below that
-- was reset, and has grown from 0.
abbrev pub grown : ℕ → ℕ → ℕ → ℕ
grown total last now = if ltb now last then total + now else total + now - last

abbrev pub billed : List StatEntry → Tunnel → Tunnel
billed stats t = elim (answered (agent_cn t.agent_id) (codes "t" ++ str t.id) stats) [
  | none ↦ t
  | some s ↦ record t {
    bytes_in = grown t.bytes_in t.last_today_in s.0;
    bytes_out = grown t.bytes_out t.last_today_out s.1;
    last_today_in = s.0;
    last_today_out = s.1;
  }
]

abbrev is_some : ℕ → Option ℕ → Bool
is_some k none = false
is_some k (some j) = j == k

abbrev is_of : ℕ → Option Agent → Bool
is_of k none = false
is_of k (some a) = is_some k a.team_id

abbrev sum : List ℕ → ℕ
sum [] = 0
sum (n ∷ ns) = n + sum ns

-- the bytes, both ways, of those of these tunnels whose agent is in the team
abbrev pub team_bytes : Panel → ℕ → List Tunnel → ℕ
team_bytes p k ts =
    sum (map (λ t. t.bytes_in + t.bytes_out) (select (λ t. is_of k (get_agent p t.agent_id)) ts))

abbrev pub Exceeds : Option ℕ → ℕ → Type 0
Exceeds none used = ⊥
Exceeds (some quota) used = quota < used

abbrev pub unflagged : Team → Team
unflagged team = record team { suspended = false }

abbrev unequal : Bool → Bool → Bool
unequal true true = false
unequal false false = false
unequal _ _ = true

-- whether the team is suspended in one of the two tables and not in the other
abbrev pub is_flipped : List Team → List Team → Option ℕ → Bool
is_flipped (team ∷ teams) (team' ∷ teams') (some k) =
    (team.id == k && unequal team'.suspended team.suspended) || is_flipped teams teams' (some k)
is_flipped _ _ _ = false

abbrev pub Settled : List StatEntry → Panel → Panel → Type 0
Settled stats p p' =
    (p'.tunnels ≡ map (billed stats) p.tunnels)
    × All
        (λ team.
          (team.suspended ≡ true) ↔ Exceeds team.quota_bytes (team_bytes p team.id p'.tunnels))
        p'.teams
    × (map unflagged p'.teams ≡ map unflagged p.teams)
    × (p'.notified
        ≡ p.notified
          ++ map (λ a. a.id) (select (λ a. is_flipped p.teams p'.teams a.team_id) p.agents))

get-collect :
    (cn name : Text) (es : List StatEntry) (out : Traffic)
    → get (cn, name) (collect out es) ≡ or_else (answered cn name es) (get (cn, name) out)
unfolding collect
get-collect cn name [] out = refl
get-collect cn name (e ∷ es) out =
    let sample : ℕ × ℕ = (e.bytes_in, e.bytes_out) in
    get-collect cn name es (put (e.cn, e.name) sample out)
    ∙ rw (get-put (e.cn, e.name) (cn, name) sample out) (ground arith)

grown-delta : (total last now : ℕ) → total + delta now last ≡ grown total last now
unfolding delta
grown-delta total last now = ground arith

account-billed :
    (stats : List StatEntry) (t : Tunnel) → account (collect [] stats) t ≡ billed stats t
unfolding account bill get
account-billed stats t =
    let sample = answered (agent_cn t.agent_id) (codes "t" ++ str t.id) stats in
    let found = get-collect (agent_cn t.agent_id) (codes "t" ++ str t.id) stats [] in
    elim (Option-cases sample) [
      | inl e ↦ rw (account, billed, found, e) refl
      | inr (s, e) ↦
          rw
            (
              account,
              billed,
              found,
              e,
              grown-delta t.bytes_in t.last_today_in s.0,
              grown-delta t.bytes_out t.last_today_out s.1,
            )
            refl
    ]

usage-team_bytes :
    (p : Panel) (all : List Tunnel) (k : ℕ) (ts : List Tunnel)
    → usage_of (record p { tunnels = all }) k ts ≡ team_bytes p k ts
unfolding usage_of
usage-team_bytes p all k [] = refl
usage-team_bytes p all k (t ∷ ts) = ground (arith, usage-team_bytes p all k ts)

is_over-Exceeds : (quota : Option ℕ) (used : ℕ) → (is_over quota used ≡ true) ↔ Exceeds quota used
unfolding is_over
is_over-Exceeds none used = ((λ h. cc), (λ h. absurd h))
is_over-Exceeds (some quota) used = ((λ h. ground arith), (λ h. ground arith))

settled-rows :
    (p q : Panel) (teams : List Team)
    → ((k : ℕ) → usage q k ≡ team_bytes p k q.tunnels)
    → All
        (λ team.
          (team.suspended ≡ true) ↔ Exceeds team.quota_bytes (team_bytes p team.id q.tunnels))
        (map (settle q) teams)
unfolding settle
settled-rows p q [] same = tt
settled-rows p q (team ∷ teams) same = (
  rw (same team.id) (is_over-Exceeds team.quota_bytes (team_bytes p team.id q.tunnels)),
  settled-rows p q teams same,
)

unflagged-rows :
    (q : Panel) (teams : List Team) → map unflagged (map (settle q) teams) ≡ map unflagged teams
unfolding settle
unflagged-rows q [] = refl
unflagged-rows q (team ∷ teams) = ap (λ r. unflagged team ∷ r) (unflagged-rows q teams)

among-flipped :
    (q : Panel) (teams : List Team) (k : Option ℕ)
    → is_among (flipped_of q teams) k ≡ is_flipped teams (map (settle q) teams) k
unfolding flipped_of settle
among-flipped q [] none = refl
among-flipped q [] (some k) = refl
among-flipped q (team ∷ teams) none = refl
among-flipped q (team ∷ teams) (some k) = ground (arith, among-flipped q teams (some k))

-- A poll bills a tunnel what the counters of the last entry that the engine reports under its own
-- agent and name have grown by, from 0 if they were reset, and nothing if there is no such entry.
-- After it a team is suspended exactly if it has a quota that the bytes of its agents' tunnels, in
-- and out, as they are after this billing, exceed. Nothing else of the teams changes, and
-- the agents of the teams whose suspension changed, and no others, are notified.
pub poll_once-Settled : (stats : List StatEntry) (p : Panel) → Settled stats p (poll_once stats p)
unfolding poll_once enforce agents_of
poll_once-Settled stats p =
    let q : Panel = record p { tunnels = map (account (collect [] stats)) p.tunnels } in
    (
      ap (λ f. map f p.tunnels) (fun_ext (account-billed stats)),
      settled-rows p q p.teams (λ k. unfold usage in usage-team_bytes p q.tunnels k q.tunnels),
      unflagged-rows q p.teams,
      ap (λ f. p.notified ++ map (λ a. a.id) (select (λ a. f a.team_id) p.agents))
          (fun_ext (among-flipped q p.teams)),
    )
