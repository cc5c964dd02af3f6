-- ===== src/Control/Handoff.antt =====
-- rctunnel-panel/rctunnel_panel/control/server.py and api/agents.py: which certificates an agent
-- can connect with, before and after a renewal and after its token is reissued.
use rc_tunnel.Base.{
  ℕ, ◌≡◌, refl, sym, ap, ◌∙◌, Bool, true, false, not, ◌||◌, Option, none, some, List, [], ◌∷◌, find,
  update, arith, Option-cases, inl, inr, Text, codes, text_eq, text_eq_refl, str, strip, All, ok,
  ◌++◌, if◌then◌else◌, ◌==◌, >>=-elim, reject_if, team_admin_required,
}
use rc_tunnel.Models.{Panel, User, Agent, get_agent, set_agent, revoke_serial, succeeds}
use rc_tunnel.Protocol.{agent_cn}
use rc_tunnel.Grant.Decimal.{IsDigit, str-IsDigit}
use rc_tunnel.Deps.{check_team_access}
use rc_tunnel.Agents.{reissue_token, reissued, found, manages_agents}
use rc_tunnel.Control.{
  admitted, closed, admit, is_superseded, confirms, clear_prev_serial, renew_cert, repinned,
  drop_prev, is_given,
}

-- whether a verified certificate of the agent, with this serial, is let in
unfoldable pub lets_in : ℕ → ℕ → Panel → Bool
lets_in id serial p = elim (admit (some id) (some serial) p).1 [
  | admitted a ↦ true
  | closed c ↦ false
]

find-update :
    (id : ℕ) (f : Agent → Agent) (rows : List Agent) (a : Agent)
    → ((x : Agent) → (f x).id ≡ x.id)
    → find (λ x. x.id == id) rows ≡ some a
    → find (λ x. x.id == id) (update (λ x. x.id == id) f rows) ≡ some (f a)
find-update id f [] a keeps h = cc
find-update id f (x ∷ rows) a keeps h = ground (arith, keeps x, find-update id f rows a keeps)

lets_in-row :
    (id n : ℕ) (p : Panel) (a : Agent)
    → get_agent p id ≡ some a
    → lets_in id n p ≡ not (is_superseded a (some (str n)))
unfolding lets_in admit
lets_in-row id n p a h = ground arith

renewed :
    (sign : Text → Text → Option Text) (id : ℕ) (csr serial : Text) (p p' : Panel) (a : Agent)
    → get_agent p id ≡ some a
    → renew_cert sign id csr p ≡ (p', some serial)
    → get_agent p' id ≡ some (repinned serial a)
unfolding renew_cert repinned
renewed sign id [] serial p p' a at_a h = cc
renewed sign id (c ∷ csr) serial p p' a at_a h =
    elim (Option-cases (sign (c ∷ csr) (agent_cn id))) [
      | inl e ↦ absurd (let k = rw (renew_cert, e) at h in cc)
      | inr (serial', e) ↦
          let k : ((set_agent p id (repinned serial'), some serial') ≡ (p', some serial)) =
            rw (renew_cert, e, at_a) at h in
          let at_p : (set_agent p id (repinned serial') ≡ p') = cc in
          let same : (serial' ≡ serial) = cc in
          rw (← at_p, same) (find-update id (repinned serial) p.agents a (λ x. refl) at_a)
    ]

-- After a renewal of an agent whose pinned serial is neither missing, empty nor `revoked`, of the
-- certificates of the agent with a readable serial exactly two are let in: the new one and the one
-- that was pinned before.
pub renew_cert-lets_in :
    (sign : Text → Text → Option Text) (id : ℕ) (csr serial old : Text) (n c d : ℕ) (p p' : Panel)
    (a : Agent)
    → get_agent p id ≡ some a
    → a.cert_serial ≡ some (d ∷ old)
    → text_eq (d ∷ old) (codes "revoked") ≡ false
    → renew_cert sign id csr p ≡ (p', some (c ∷ serial))
    → lets_in id n p' ≡ text_eq (str n) (c ∷ serial) || text_eq (str n) (d ∷ old)
unfolding is_superseded repinned
renew_cert-lets_in sign id csr serial old n c d p p' a at_a pinned live h =
    lets_in-row id n p' (repinned (c ∷ serial) a) (renewed sign id csr (c ∷ serial) p p' a at_a h)
    ∙ rw pinned (rw live (ground arith))

agents-revoke : (s : Option Text) (p : Panel) → (revoke_serial s p).agents ≡ p.agents
unfolding revoke_serial
agents-revoke none p = refl
agents-revoke (some s) p = ground arith

module _ (id n c : ℕ) (serial : Text) (p : Panel) (a : Agent) (at_a : get_agent p id ≡ some a)
    (pinned : a.cert_serial ≡ some (c ∷ serial)) (shown : str n ≡ c ∷ serial) where
  current : is_superseded a (some (str n)) ≡ false
  unfolding is_superseded
  current = rw (pinned, shown, text_eq_refl (c ∷ serial)) refl

  confirms-prev : confirms a (some (str n)) ≡ is_given a.prev_cert_serial
  unfolding confirms
  confirms-prev = rw (pinned, shown, text_eq_refl (c ∷ serial)) refl

  -- what the admission of the pinned certificate writes
  cleared : (admit (some id) (some n) p).0 ≡ clear_prev_serial id p
  unfolding admit clear_prev_serial
  cleared = ground (arith, current, confirms-prev)

drop_prev-none : (a : Agent) → a.prev_cert_serial ≡ none → drop_prev a ≡ a
drop_prev-none a h = ap (λ x. record a { prev_cert_serial = x }) (sym h)

cleared-row :
    (id : ℕ) (p : Panel) (a : Agent)
    → get_agent p id ≡ some a
    → get_agent (clear_prev_serial id p) id ≡ some (drop_prev a)
unfolding clear_prev_serial
cleared-row id p a at_a = elim (Option-cases a.prev_cert_serial) [
  | inl e ↦ rw (clear_prev_serial, at_a, e) (at_a ∙ ap some (sym (drop_prev-none a e)))
  | inr (q, e) ↦
      rw (clear_prev_serial, at_a, e, agents-revoke (some q) p)
        (find-update id drop_prev p.agents a (λ x. refl) at_a)
]

-- Once an agent has connected with the certificate that is pinned, no other certificate of it with
-- a readable serial is let in.
pub admit-retires :
    (id n m c : ℕ) (serial : Text) (p : Panel) (a : Agent)
    → get_agent p id ≡ some a
    → a.cert_serial ≡ some (c ∷ serial)
    → str n ≡ c ∷ serial
    → lets_in id m (admit (some id) (some n) p).0 ≡ text_eq (str m) (c ∷ serial)
admit-retires id n m c serial p a at_a pinned shown =
    rw (cleared id n c serial p a at_a pinned shown) (
      lets_in-row id m (clear_prev_serial id p) (drop_prev a) (cleared-row id p a at_a)
      ∙ unfold is_superseded in rw pinned (ground arith))

-- When an agent connects with the certificate that is pinned and its row has a serial before it
-- that is neither empty nor `revoked`, that serial is put at the end of the revoked serials that
-- the data plane reads if the append to their file succeeds, and they stay as they were if it
-- fails. In both cases the row of the agent has no serial before the pinned one any more and is
-- otherwise as it was.
pub admit-revokes :
    (id n c d : ℕ) (serial old : Text) (p : Panel) (a : Agent)
    → get_agent p id ≡ some a
    → a.cert_serial ≡ some (c ∷ serial)
    → a.prev_cert_serial ≡ some (d ∷ old)
    → text_eq (d ∷ old) (codes "revoked") ≡ false
    → str n ≡ c ∷ serial
    → let p' = (admit (some id) (some n) p).0 in
      (p'.revoked_serials ≡ (
        if succeeds p.appends
        then p.revoked_serials ++ (strip (d ∷ old) ∷ [])
        else p.revoked_serials))
      × (get_agent p' id ≡ some (record a { prev_cert_serial = none }))
unfolding clear_prev_serial revoke_serial
admit-revokes id n c d serial old p a at_a pinned before live shown =
    rw (cleared id n c serial p a at_a pinned shown)
      ((rw (clear_prev_serial, at_a, before, revoke_serial, live) refl), cleared-row id p a at_a)

digits-revoked : (s : Text) → All IsDigit s → text_eq s (codes "revoked") ≡ false
digits-revoked [] h = refl
digits-revoked (c ∷ s) h = ground arith

pub reissued-row :
    (u : User) (id : ℕ) (token : Text) (p p' : Panel)
    → reissue_token u id token p ≡ ok p'
    → (a : Agent) × (get_agent p id ≡ some a) × (get_agent p' id ≡ some (reissued token a))
unfolding reissue_token reissued
reissued-row u id token p p' h =
    >>=-elim (reject_if (not (manages_agents u.role)) 403 team_admin_required) _ h λ x e1 h1.
      >>=-elim (found (get_agent p id)) _ h1 λ a e2 h2.
        >>=-elim (check_team_access a.team_id u) _ h2 λ y e3 h3.
          let at_a : get_agent p id ≡ some a = unfold found in ground arith in
          let state : set_agent (revoke_serial a.cert_serial p) id (reissued token) ≡ p' = cc in
          (
            a,
            at_a,
            rw (← state, agents-revoke a.cert_serial p)
                (find-update id (reissued token) p.agents a (λ z. refl) at_a),
          )

-- In the state that a successful reissue of an agent's token leaves, no certificate of the agent
-- with a readable serial is let in, whatever the serial.
pub reissue_token-lets_in :
    (u : User) (id n : ℕ) (token : Text) (p p' : Panel)
    → reissue_token u id token p ≡ ok p'
    → lets_in id n p' ≡ false
unfolding is_superseded reissued
reissue_token-lets_in u id n token p p' h =
    let (a, before, at_a) = reissued-row u id token p p' h in
    lets_in-row id n p' (reissued token a) at_a ∙ rw (digits-revoked (str n) (str-IsDigit n)) refl
