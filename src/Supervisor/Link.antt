-- ===== src/Supervisor/Link.antt =====
-- rctunnel-panel/agent/rctunnel_agent.py: the reconnects of `run` and the certificates of an agent:
-- `ensure_enrolled`, `_enroll`, `_maybe_request_renew` and `_install_renewed`. An enrollment's answer,
-- a new key, the request that is made from it and the days a certificate has left are arguments.
use rc_tunnel.Base.{
  ℕ, ◌+◌, ◌*◌, Bool, true, false, not, ◌&&◌, ◌||◌, Option, none, some, List, [], ◌∷◌, leb, Text,
  truthy, if◌then◌else◌, ℤ, pos,
}
use rc_tunnel.Versions.{int_ltb}

-- `_cert_days_left` at these days, for a certificate that can be read
abbrev pub cert_renew_days : ℕ
cert_renew_days = 30

abbrev pub reconnect_max : ℕ
reconnect_max = 30

-- what an agent has of its certificates, and the key of a renewal that is under way
pub record Certs : Type 0 where
  pub key : Option Text
  pub crt : Option Text
  pub ca : Option Text
  pub renew_key : Option Text

-- the answer to an enrollment
pub record Enrolled : Type 0 where
  pub agent_cert_pem : Text
  pub ca_cert_pem : Text

-- `_enroll`, with the new key and the answer, if there is one
unfoldable pub enroll : Text → Option Enrolled → Certs → Certs × Bool
enroll new_key none c = (c, false)
enroll new_key (some d) c =
    (record c { key = some new_key; crt = some d.agent_cert_pem; ca = some d.ca_cert_pem }, true)

abbrev pub stands : Option Text → Bool
stands none = false
stands (some s) = true

unfoldable pub is_enrolled : Certs → Bool
is_enrolled c = stands c.crt && stands c.key && stands c.ca

-- the state, and whether the bootstrap token was sent
unfoldable pub ensure_enrolled : Text → Option Enrolled → Certs → Certs × Bool
unfolding enroll is_enrolled
ensure_enrolled new_key answer c =
    if is_enrolled c then (c, false) else ((enroll new_key answer c).0, true)

-- `left is not None and left > CERT_RENEW_DAYS`
abbrev pub is_far : Option ℤ → Bool
is_far none = false
is_far (some left) = int_ltb (pos cert_renew_days) left

-- the state, and whether a request with the new key is sent
unfoldable pub maybe_request_renew : Option ℤ → Text → Certs → Certs × Bool
maybe_request_renew left new_key c =
    if is_far left || stands c.renew_key
    then (c, false)
    else (record c { renew_key = some new_key }, true)

-- the message that answers a request
pub record Renewed : Type 0 where
  pub agent_cert_pem : Text
  pub ca_cert_pem : Option Text

-- `if msg.get("ca_cert_pem")`
abbrev pub given_or : Option Text → Option Text → Option Text
given_or (some (c ∷ s)) old = some (c ∷ s)
given_or _ old = old

-- the state, and whether the agent restarts
unfoldable pub install_renewed : Renewed → Certs → Certs × Bool
install_renewed msg c =
    if truthy c.renew_key
    then (
      record {
        key = c.renew_key;
        crt = some msg.agent_cert_pem;
        ca = given_or msg.ca_cert_pem c.ca;
        renew_key = none;
      },
      true,
    )
    else (c, false)

-- one round of `run`: whether the session connected, whether it raised and with a certificate that
-- could not be verified, and whether a new enrollment would be answered
pub record Attempt : Type 0 where
  pub connected : Bool
  pub raised : Option Bool
  pub enrolls : Bool

pub record Retry : Type 0 where
  pub backoff : ℕ
  pub ca_refresh_tried : Bool

-- the next state, the seconds slept, and whether an enrollment was asked for
pub data Outcome : Type 0 where
  again : Retry → ℕ → Bool → Outcome
  restarts : Outcome

abbrev pub doubled : ℕ → ℕ
doubled backoff = if leb (backoff * 2) reconnect_max then backoff * 2 else reconnect_max

-- a session that connects allows a refresh again
abbrev pub tried_then : Attempt → Retry → Bool
tried_then a r = if a.connected then false else r.ca_refresh_tried

unfoldable pub attempt : Attempt → Retry → Outcome
attempt a r = elim a.raised [
  | none ↦ again (record { backoff = 1; ca_refresh_tried = tried_then a r }) 0 false
  | some unverified ↦
      if unverified && not (tried_then a r)
      then if a.enrolls
        then restarts
        else again (record { backoff = doubled r.backoff; ca_refresh_tried = true }) r.backoff true
      else again (record { backoff = doubled r.backoff; ca_refresh_tried = tried_then a r })
          r.backoff false
]

-- what the rounds after it come to
abbrev pub one_more : Bool → Retry × ℕ → Retry × ℕ
one_more asked (last, n) = (last, if asked then n + 1 else n)

abbrev pub follow : (Retry → Retry × ℕ) → Retry → Outcome → Retry × ℕ
follow rest r restarts = (r, 1)
follow rest r (again next slept asked) = one_more asked (rest next)

-- until the agent restarts: the state, and the enrollments that were asked for
unfoldable pub attempts : List Attempt → Retry → Retry × ℕ
unfolding attempt
attempts [] r = (r, 0)
attempts (a ∷ rounds) r = follow (λ next. attempts rounds next) r (attempt a r)
