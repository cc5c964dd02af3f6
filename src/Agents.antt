-- ===== src/Agents.antt =====
-- rctunnel-panel/rctunnel_panel/api/agents.py: agents, their bootstrap tokens and enrollment. The
-- database gives ids and times, `secrets` the tokens. Signing a CSR is pki.py's use of a
-- third-party library: a parameter that gives the serial of the certificate for a CSR and an
-- identity, or nothing for a bad CSR.
pub mod Tokens
use rc_tunnel.Base.{
  ℕ, zero, suc, ◌+◌, Bool, true, false, not, ◌&&◌, ◌||◌, Option, none, some, List, [], ◌∷◌, ◌++◌,
  length, select, any, find, update, ◌==◌, both_eq, Text, codes, text_eq, truthy, Result, ok, err,
  raise, reject_if, ◌>>=◌, ◌>>◌, HttpException, agent_not_found, node_not_found, agent_name_exists,
  team_admin_required, invalid_bootstrap_token, token_already_used, bad_csr, integrity_error,
  if◌then◌else◌,
}
use rc_tunnel.Models.{
  Panel, User, Agent, Node, Role, admin, team_admin, AgentStatus, offline, get_agent, get_node,
  set_agent, revoke_serial,
}
use rc_tunnel.Deps.{is_admin, check_team_access}
use rc_tunnel.Schemas.{EnrollRequest}
use rc_tunnel.Protocol.{agent_cn}
use rc_tunnel.RateLimit.{Fails, guard, record_fail}

-- `user.role in (Role.admin, Role.team_admin)`
abbrev pub manages_agents : Role → Bool
manages_agents admin = true
manages_agents team_admin = true
manages_agents _ = false

-- `Agent.team_id == user.team_id` in SQL
abbrev pub team_matches : Option ℕ → Option ℕ → Bool
team_matches none none = true
team_matches (some a) (some b) = a == b
team_matches _ _ = false

unfoldable pub list_agents : Panel → User → List Agent
list_agents p u =
    if is_admin u.role then p.agents else select (λ a. team_matches a.team_id u.team_id) p.agents

unfoldable pub found : {A : Type 0} → Option A → Result A
found none = raise 404 agent_not_found
found (some a) = ok a

-- `db.get(Node, body.node_id) if body.node_id else` the first node by id
unfoldable pub pick_node : Panel → Option ℕ → Option Node
pick_node p (some (suc id)) = get_node p (suc id)
pick_node p _ = elim p.nodes [ [] ↦ none | n ∷ ns ↦ some n ]

unfoldable pub node_or_404 : Option Node → Result Node
node_or_404 none = raise 404 node_not_found
node_or_404 (some n) = ok n

unfoldable pub new_agent : ℕ → Text → ℕ → Text → Node → Option ℕ → Agent
new_agent id token now name node team_id = record {
  id = id;
  name = name;
  agent_token = token;
  token_used = false;
  node_id = node.id;
  team_id = team_id;
  status = offline;
  last_seen = none;
  lan_ip = none;
  os = none;
  arch = none;
  agent_version = none;
  last_ping_ms = none;
  cert_days_left = none;
  cert_serial = none;
  prev_cert_serial = none;
  generation = 0;
  created_at = now;
}

unfoldable pub create_agent : User → Text → Option ℕ → ℕ → Text → ℕ → Panel → Result (Panel × Agent)
create_agent u name node_id id token now p = do
  reject_if (not (manages_agents u.role)) 403 team_admin_required
  reject_if (any (λ a. text_eq a.name name) p.agents) 409 agent_name_exists
  node ← node_or_404 (pick_node p node_id)
  let a = new_agent id token now name node u.team_id
  ok (record p { agents = p.agents ++ (a ∷ []) }, a)

unfoldable pub update_agent : User → ℕ → Text → Panel → Result Panel
update_agent u id name p = do
  a ← found (get_agent p id)
  check_team_access a.team_id u
  reject_if (any (λ b. text_eq b.name name && not (b.id == id)) p.agents) 409 agent_name_exists
  ok (set_agent p id (λ b. record b { name = name }))

-- the row goes, and its tunnels with it
unfoldable pub drop_agent : ℕ → Panel → Panel
drop_agent id p = record p {
  agents = select (λ a. not (a.id == id)) p.agents;
  tunnels = select (λ t. not (t.agent_id == id)) p.tunnels;
}

unfoldable pub delete_agent : User → ℕ → Panel → Result Panel
delete_agent u id p = do
  a ← found (get_agent p id)
  check_team_access a.team_id u
  ok (drop_agent id (revoke_serial a.cert_serial p))

-- what a reissue writes to the row
unfoldable pub reissued : Text → Agent → Agent
reissued token a = record a {
  agent_token = token;
  token_used = false;
  cert_serial = some (codes "revoked");
  prev_cert_serial = none;
}

unfoldable pub reissue_token : User → ℕ → Text → Panel → Result Panel
reissue_token u id token p = do
  reject_if (not (manages_agents u.role)) 403 team_admin_required
  a ← found (get_agent p id)
  check_team_access a.team_id u
  ok (set_agent (revoke_serial a.cert_serial p) id (reissued token))

-- An enrollment after its checks: what the conditional UPDATE is about to write. Other requests
-- may run between the checks and the UPDATE.
pub record Pending : Type 0 where
  pub agent_id : ℕ
  pub serial : Text
  pub os : Option Text
  pub arch : Option Text

unfoldable pub enrolled : Pending → ℕ → Agent → Agent
enrolled e now a = record a {
  token_used = true;
  cert_serial = some e.serial;
  prev_cert_serial = none;
  os = e.os;
  arch = e.arch;
  last_seen = some now;
}

-- `Agent.id == agent.id, Agent.token_used.is_(False)`
abbrev pub burnable : ℕ → Agent → Bool
burnable id a = a.id == id && not a.token_used

-- the UPDATE, with the number of rows that it changed
unfoldable pub burn : Pending → ℕ → Panel → Panel × ℕ
unfolding enrolled
burn e now p = (
  record p { agents = update (burnable e.agent_id) (enrolled e now) p.agents },
  length (select (burnable e.agent_id) p.agents),
)

module _ (sign : Text → Text → Option Text) where
  unfoldable pub signed : EnrollRequest → Agent → Result Pending
  signed body a = elim (sign body.csr_pem (agent_cn a.id)) [
    | none ↦ raise 400 bad_csr
    | some serial ↦ ok (record { agent_id = a.id; serial = serial; os = body.os; arch = body.arch })
  ]

  -- the checks up to the signature; a token that is wrong or used counts as a failure of the IP
  unfoldable pub enroll_checks :
      EnrollRequest → Option Text → ℕ → Panel → Fails → Fails × Result Pending
  unfolding signed
  enroll_checks body ip now p s =
      elim (find (λ a. text_eq a.agent_token body.bootstrap_token) p.agents) [
        | none ↦ (record_fail now ip s, raise 401 invalid_bootstrap_token)
        | some a ↦
            if a.token_used
            then (record_fail now ip s, raise 409 token_already_used)
            else (s, signed body a)
      ]

  unfoldable pub enroll_start :
      EnrollRequest → Option Text → ℕ → Panel → Fails → Fails × Result Pending
  unfolding enroll_checks
  enroll_start body ip now p s =
      let (s', r) = guard now ip s in
      elim r [ err e ↦ (s', err e) | ok v ↦ enroll_checks body ip now p s' ]

unfoldable pub enroll_finish : Pending → Option Text → ℕ → Panel → Fails → Panel × Fails × Result ℕ
enroll_finish e ip now p s =
    let (p', rows) = burn e now p in
    if rows == 1
    then (p', s, ok e.agent_id)
    else (p', record_fail now ip s, raise 409 token_already_used)

-- a request with nothing in between
unfoldable pub enroll :
    (Text → Text → Option Text)
    → EnrollRequest
    → Option Text
    → ℕ
    → Panel
    → Fails
    → Panel × Fails × Result ℕ
enroll sign body ip now p s =
    let (s', r) = enroll_start sign body ip now p s in
    elim r [ err e ↦ (p, s', err e) | ok pending ↦ enroll_finish pending ip now p s' ]
