-- ===== src/Supervisor/Retries.antt =====
-- rctunnel-panel/agent/rctunnel_agent.py: the reconnects of an agent and the renewals of its
-- certificate, over any number of them.
use rc_tunnel.Base.{
  ℕ, ◌+◌, ◌≤◌, not, ◌&&◌, List, [], ◌∷◌, Bool-cases, Option-cases, inl, inr, arith, if◌then◌else◌,
}
use rc_tunnel.Supervisor.Link.{
  Attempt, Retry, Outcome, again, restarts, follow, attempt, attempts, tried_then,
}

-- the sessions that connected
abbrev pub connections : List Attempt → ℕ
connections [] = 0
connections (a ∷ rounds) = if a.connected then connections rounds + 1 else connections rounds

abbrev pub untried : Retry → ℕ
untried r = if r.ca_refresh_tried then 0 else 1

-- one round: the enrollment that it asks for is made up for by a connection, or by the first try
abbrev Fits : Attempt → Retry → Outcome → Type 0
Fits a r restarts = 1 ≤ untried r + (if a.connected then 1 else 0)
Fits a r (again next slept asked) =
    (if asked then 1 else 0) + untried next ≤ untried r + (if a.connected then 1 else 0)

attempt-Fits : (a : Attempt) (r : Retry) → Fits a r (attempt a r)
unfolding attempt
attempt-Fits a r = elim (Option-cases a.raised) [
  | inl e ↦ rw e (ground arith)
  | inr (v, e) ↦ rw e (elim (Bool-cases (v && not (tried_then a r))) [
    | inr f ↦ rw f (ground arith)
    | inl f ↦
        rw f (elim (Bool-cases a.enrolls) [
          | inl g ↦ rw g (ground arith)
          | inr g ↦ rw g (ground arith)
        ])
  ])
]

follow-le :
    (a : Attempt) (rounds : List Attempt) (r : Retry) (rest : Retry → Retry × ℕ) (o : Outcome)
    → ((next : Retry) → (rest next).1 ≤ untried next + connections rounds)
    → Fits a r o
    → (follow rest r o).1 ≤ untried r + connections (a ∷ rounds)
follow-le a rounds r rest restarts le fits = ground arith
follow-le a rounds r rest (again next slept asked) le fits = ground (arith, le next)

-- Over any number of sessions that end or fail, until the agent restarts, it asks for a new
-- enrollment at most once for each session that connected, and once more if it has not done so
-- before.
pub attempts-le-connections :
    (rounds : List Attempt) (r : Retry) → (attempts rounds r).1 ≤ untried r + connections rounds
unfolding attempts
attempts-le-connections [] r = omega arith
attempts-le-connections (a ∷ rounds) r =
    follow-le a rounds r (λ next. attempts rounds next) (attempt a r)
      (λ next. attempts-le-connections rounds next) (attempt-Fits a r)
