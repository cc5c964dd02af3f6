-- ===== src/Agents/Tokens.antt =====
-- rctunnel-panel/rctunnel_panel/api/agents.py: the requests on agents as steps of one history, in
-- which an enrollment's final UPDATE may come any time after its checks.
use rc_tunnel.Base.{
  ℕ, ◌+◌, ◌≤◌, ◌≡◌, refl, Bool, true, false, not, ◌&&◌, Option, List, [], ◌∷◌, any, length, select,
  update, arith, ◌==◌, any-append, Option-cases, inl, inr, if◌then◌else◌, Text, Result, ok, err,
}
use rc_tunnel.Models.{Panel, User, Agent, revoke_serial}
use rc_tunnel.RateLimit.{Fails}
use rc_tunnel.Agents.{
  create_agent, update_agent, delete_agent, drop_agent, reissue_token, reissued, Pending, burnable,
  enrolled, burn, enroll_finish, new_agent, pick_node, node_or_404,
}

-- a request with what the database, the clock and `secrets` give it
pub data AgentRequest : Type 0 where
  creates : User → Text → Option ℕ → ℕ → Text → ℕ → AgentRequest
  renames : User → ℕ → Text → AgentRequest
  deletes : User → ℕ → AgentRequest
  reissues : User → ℕ → Text → AgentRequest
  finishes : Pending → Option Text → ℕ → AgentRequest

-- a request that raises commits nothing
abbrev committed : Panel → Result Panel → Panel
committed p (ok p') = p'
committed p (err e) = p

abbrev created : Panel → Result (Panel × Agent) → Panel
created p (ok (p', a)) = p'
created p (err e) = p

unfoldable pub step : Panel × Fails → AgentRequest → Panel × Fails
step (p, s) (creates u name n id token now) = (created p (create_agent u name n id token now p), s)
step (p, s) (renames u id name) = (committed p (update_agent u id name p), s)
step (p, s) (deletes u id) = (committed p (delete_agent u id p), s)
step (p, s) (reissues u id token) = (committed p (reissue_token u id token p), s)
step (p, s) (finishes e ip now) = let (p', s', r) = enroll_finish e ip now p s in (p', s')

abbrev one_if : Bool → ℕ
one_if b = if b then 1 else 0

abbrev is_ok : Result ℕ → Bool
is_ok (ok a) = true
is_ok (err e) = false

-- whether an agent's token can still be used
abbrev pub unused : ℕ → Panel → ℕ
unused k p = one_if (any (burnable k) p.agents)

-- whether a request enrolls the agent
unfoldable pub wins : ℕ → Panel × Fails → AgentRequest → ℕ
wins k (p, s) (finishes e ip now) = one_if (e.agent_id == k && is_ok (enroll_finish e ip now p s).2)
wins k _ _ = 0

abbrev is_created : Result (Panel × Agent) → Bool
is_created (ok made) = true
is_created (err e) = false

abbrev is_committed : Result Panel → Bool
is_committed (ok p) = true
is_committed (err e) = false

-- whether a request gives the agent a new token, which one that is refused does not
unfoldable pub issues : ℕ → Panel × Fails → AgentRequest → ℕ
issues k (p, s) (creates u name n id token now) =
    one_if (id == k && is_created (create_agent u name n id token now p))
issues k (p, s) (reissues u id token) =
    one_if (id == k && is_committed (reissue_token u id token p))
issues k _ _ = 0

unfoldable pub enrollments : ℕ → Panel × Fails → List AgentRequest → ℕ
enrollments k st [] = 0
enrollments k st (r ∷ rs) = let rest = enrollments k (step st r) rs in wins k st r + rest

unfoldable pub issued : ℕ → Panel × Fails → List AgentRequest → ℕ
issued k st [] = 0
issued k st (r ∷ rs) = let rest = issued k (step st r) rs in issues k st r + rest

any-select :
    (k : ℕ) (id : ℕ) (rows : List Agent)
    → any (burnable k) (select (λ a. not (a.id == id)) rows) ≡ true
    → any (burnable k) rows ≡ true
any-select k id [] h = h
any-select k id (a ∷ rows) h = ground (arith, any-select k id rows)

any-rename :
    (k id : ℕ) (name : Text) (rows : List Agent)
    → any (burnable k) (update (λ a. a.id == id) (λ b. record b { name = name }) rows)
      ≡ any (burnable k) rows
any-rename k id name [] = refl
any-rename k id name (a ∷ rows) = ground (arith, any-rename k id name rows)

any-reissued :
    (k id : ℕ) (token : Text) (rows : List Agent)
    → (id == k) ≡ false
    → any (burnable k) (update (λ a. a.id == id) (reissued token) rows) ≡ any (burnable k) rows
unfolding reissued
any-reissued k id token [] h = refl
any-reissued k id token (a ∷ rows) h = ground (arith, any-reissued k id token rows)

any-enrolled :
    (k : ℕ) (e : Pending) (now : ℕ) (rows : List Agent)
    → any (burnable k) (update (burnable e.agent_id) (enrolled e now) rows)
      ≡ (if e.agent_id == k then false else any (burnable k) rows)
unfolding enrolled
any-enrolled k e now [] = ground arith
any-enrolled k e now (a ∷ rows) = ground (arith, any-enrolled k e now rows)

length-any :
    (k : ℕ) (rows : List Agent)
    → length (select (burnable k) rows) ≡ 1
    → any (burnable k) rows ≡ true
length-any k [] h = absurd (omega arith)
length-any k (a ∷ rows) h = ground (arith, length-any k rows)

unused-create :
    (k : ℕ) (u : User) (name : Text) (n : Option ℕ) (id : ℕ) (token : Text) (now : ℕ) (p : Panel)
    → unused k (created p (create_agent u name n id token now p))
      ≤ unused k p + one_if (id == k && is_created (create_agent u name n id token now p))
unfolding create_agent new_agent node_or_404
unused-create k u name n id token now p = elim (Option-cases (pick_node p n)) [
  | inl e ↦ ground arith
  | inr (m, e) ↦
      ground
        (arith, any-append (burnable k) p.agents (new_agent id token now name m u.team_id ∷ []))
]

unused-rename :
    (k : ℕ) (u : User) (id : ℕ) (name : Text) (p : Panel)
    → unused k (committed p (update_agent u id name p)) ≡ unused k p
unfolding update_agent
unused-rename k u id name p = ground (arith, any-rename k id name p.agents)

unused-delete :
    (k : ℕ) (u : User) (id : ℕ) (p : Panel)
    → unused k (committed p (delete_agent u id p)) ≤ unused k p
unfolding delete_agent drop_agent revoke_serial
unused-delete k u id p = ground (arith, any-select k id p.agents)

unused-reissue :
    (k : ℕ) (u : User) (id : ℕ) (token : Text) (p : Panel)
    → unused k (committed p (reissue_token u id token p))
      ≤ unused k p + one_if (id == k && is_committed (reissue_token u id token p))
unfolding reissue_token revoke_serial
unused-reissue k u id token p = ground (arith, any-reissued k id token p.agents)

finish-cost :
    (k : ℕ) (e : Pending) (ip : Option Text) (now : ℕ) (p : Panel) (s : Fails)
    → one_if (e.agent_id == k && is_ok (enroll_finish e ip now p s).2)
        + unused k (enroll_finish e ip now p s).0
      ≤ unused k p
unfolding enroll_finish burn
finish-cost k e ip now p s =
    ground (arith, any-enrolled k e now p.agents, length-any e.agent_id p.agents)

step-cost :
    (k : ℕ) (st : Panel × Fails) (r : AgentRequest)
    → wins k st r + unused k (step st r).0 ≤ unused k st.0 + issues k st r
unfolding step wins issues
step-cost k (p, s) (creates u name n id token now) =
    ground (arith, unused-create k u name n id token now p)
step-cost k (p, s) (renames u id name) = ground (arith, unused-rename k u id name p)
step-cost k (p, s) (deletes u id) = ground (arith, unused-delete k u id p)
step-cost k (p, s) (reissues u id token) = ground (arith, unused-reissue k u id token p)
step-cost k (p, s) (finishes e ip now) = ground (arith, finish-cost k e ip now p s)

-- In any history of requests, with the final UPDATE of an enrollment coming at any point of it, an
-- agent enrolls at most once for each token it was given: one for each request that succeeds in
-- creating it or in reissuing its token, and the one it may hold unused at the start. A request
-- that is refused gives no token.
pub enrollments-le-issued :
    (k : ℕ) (st : Panel × Fails) (rs : List AgentRequest)
    → enrollments k st rs ≤ unused k st.0 + issued k st rs
unfolding enrollments issued
enrollments-le-issued k st [] = omega arith
enrollments-le-issued k st (r ∷ rs) =
    omega (arith, step-cost k st r, enrollments-le-issued k (step st r) rs)
