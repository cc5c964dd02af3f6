-- ===== src/Control.antt =====
-- rctunnel-panel/rctunnel_panel/control/server.py: which agent certificates the control server
-- admits, how they are renewed, and what an agent's messages write. The identity and the serial of
-- a certificate are given: TLS has verified them. Signing a CSR (pki.py) and the textual form of an
-- IP address are parameters.
pub mod Peer
pub mod Session
pub mod Flapping
pub mod Handoff
pub mod Telemetry
use rc_tunnel.Base.{
  ℕ, ℤ, pos, negsuc, int_eq, ◌-◌, Bool, true, false, not, ◌&&◌, ◌||◌, Option, none, some, List, [],
  ◌∷◌, select, take, ltb, leb, Text, codes, text_eq, option_eq, truthy, str, strip, if◌then◌else◌,
}
use rc_tunnel.Models.{Panel, Agent, get_agent, set_agent, revoke_serial}
use rc_tunnel.Schemas.{is_bad_code}
use rc_tunnel.Manager.{Plane, touch, register, unregister}
use rc_tunnel.Protocol.{agent_cn}

-- why a connection is closed at once: codes 4001, 4004 and 4003
pub data Close : Type 0 where
  no_identity unknown_agent superseded : Close

pub data Admission : Type 0 where
  admitted : Agent → Admission
  closed : Close → Admission

-- `str(peer) if peer is not None else None`
abbrev pub serial_text : Option ℕ → Option Text
serial_text none = none
serial_text (some n) = some (str n)

abbrev pub is_given : Option Text → Bool
is_given none = false
is_given (some s) = true

-- a serial was pinned, and the one that is presented is neither it nor the one before
unfoldable pub is_superseded : Agent → Option Text → Bool
is_superseded a ps =
    truthy a.cert_serial
    && (is_given ps && (not (option_eq ps a.cert_serial) && not (option_eq ps a.prev_cert_serial)))

unfoldable pub confirms : Agent → Option Text → Bool
confirms a ps = truthy a.cert_serial && (option_eq ps a.cert_serial && is_given a.prev_cert_serial)

abbrev pub drop_prev : Agent → Agent
drop_prev a = record a { prev_cert_serial = none }

unfoldable pub clear_prev_serial : ℕ → Panel → Panel
clear_prev_serial id p = elim (get_agent p id) [
  | none ↦ p
  | some a ↦
      if is_given a.prev_cert_serial
      then set_agent (revoke_serial a.prev_cert_serial p) id drop_prev
      else p
]

-- the first part of `_handle`, up to the welcome
unfoldable pub admit : Option ℕ → Option ℕ → Panel → Panel × Admission
admit none serial p = (p, closed no_identity)
admit (some id) serial p = elim (get_agent p id) [
  | none ↦ (p, closed unknown_agent)
  | some a ↦
      if is_superseded a (serial_text serial)
      then (p, closed superseded)
      else if confirms a (serial_text serial)
      then (clear_prev_serial id p, admitted a)
      else (p, admitted a)
]

-- `_handle` up to the welcome: who is let in is registered
unfoldable pub connect : Option ℕ → Option ℕ → ℕ → ℕ → Plane → Plane × Admission
connect peer serial conn now w =
    let (p, admission) = admit peer serial w.panel in
    elim admission [
      | closed why ↦ (record w { panel = p }, closed why)
      | admitted a ↦ (register a.id conn now (record w { panel = p }), admitted a)
    ]

-- what a renewal writes to the row: the pinned serial stays good until the new one is used
unfoldable pub repinned : Text → Agent → Agent
repinned serial a = record a {
  cert_serial = some serial;
  prev_cert_serial =
      if truthy a.cert_serial && not (option_eq a.cert_serial (some (codes "revoked")))
      then a.cert_serial
      else a.prev_cert_serial;
}

-- the new state, and the serial of the certificate that is sent back
module _ (sign : Text → Text → Option Text) where
  unfoldable pub renew_cert : ℕ → Text → Panel → Panel × Option Text
  renew_cert id [] p = (p, none)
  renew_cert id (c ∷ csr) p = elim (sign (c ∷ csr) (agent_cn id)) [
    | none ↦ (p, none)
    | some serial ↦ elim (get_agent p id) [
      | none ↦ (p, none)
      | some a ↦ (set_agent p id (repinned serial), some serial)
    ]
  ]

unfoldable pub set_ping : ℕ → Option ℕ → Panel → Panel
set_ping id ms p = set_agent p id (λ a. record a { last_ping_ms = ms })

-- the `finally` of `_handle`
unfoldable pub disconnect : ℕ → ℕ → ℕ → Plane → Plane
unfolding set_ping
disconnect id conn now w = unregister id conn now (record w { panel = set_ping id none w.panel })

unfoldable pub set_cert_days : ℕ → ℤ → Panel → Panel
set_cert_days id days p = set_agent p id (λ a. record a { cert_days_left = some days })

-- `-36500 < d < 36500`
abbrev pub plausible_days : ℤ → Bool
plausible_days (pos n) = ltb n 36500
plausible_days (negsuc n) = ltb n 36499

unfoldable pub store_days : ℕ → Option ℤ → Panel → Panel
unfolding set_cert_days
store_days id none p = p
store_days id (some d) p = if plausible_days d then set_cert_days id d p else p

unfoldable pub clean : Text → Text
clean v = select (λ c. not (is_bad_code c)) v

-- `v or None`
abbrev pub nonempty_or_none : Text → Option Text
nonempty_or_none [] = none
nonempty_or_none (c ∷ s) = some (c ∷ s)

-- a value that is not a string is `none`
unfoldable pub clean_telemetry : ℕ → Option Text → Option Text
unfolding clean
clean_telemetry maxlen none = none
clean_telemetry maxlen (some v) = nonempty_or_none (take maxlen (strip (clean v)))

abbrev or_old : Option Text → Option Text → Option Text
or_old none old = old
or_old (some v) old = some v

pub record Hello : Type 0 where
  pub os : Option Text
  pub arch : Option Text
  pub agent_version : Option Text
  pub detected_ip : Option Text

-- the cooldown between two renewals of a connection
abbrev pub renew_cooldown_secs : ℕ
renew_cooldown_secs = 60

pub data Message : Type 0 where
  hello : Hello → Message
  heartbeat applied : Option ℤ → Option Text → Message
  renew : Text → Message
  other : Message

module _ (ip_address : Text → Option Text) where
  unfoldable pub valid_ip : Option Text → Option Text
  valid_ip none = none
  valid_ip (some ip) = ip_address (strip ip)

  unfoldable pub set_lan_ip : ℕ → Option Text → Panel → Panel
  unfolding valid_ip
  set_lan_ip id ip p = elim (valid_ip ip) [
    | none ↦ p
    | some valid ↦ set_agent p id (λ a. record a { lan_ip = some valid })
  ]

  unfoldable pub store_hello : ℕ → Hello → Panel → Panel
  unfolding valid_ip
  store_hello id msg p = set_agent p id (λ a. record a {
    os = or_old (clean_telemetry 64 msg.os) a.os;
    arch = or_old (clean_telemetry 64 msg.arch) a.arch;
    agent_version = or_old (clean_telemetry 16 msg.agent_version) a.agent_version;
    lan_ip = or_old (valid_ip msg.detected_ip) a.lan_ip;
  })

  -- a heartbeat, and the answer to a configuration
  unfoldable pub report : ℕ → ℕ → Option ℤ → Option Text → Plane → Plane
  unfolding touch set_lan_ip store_days
  report id now days ip w =
      let p = (touch id now w).panel in record w { panel = set_lan_ip id ip (store_days id days p) }

  module _ (sign : Text → Text → Option Text) where
    -- one message of a session, whose last renewal was at `last_renew`; the answer to a renewal is
    -- the serial of the new certificate
    unfoldable pub on_message : ℕ → ℕ → ℕ → Message → Plane → Plane × ℕ × Option Text
    unfolding report store_hello renew_cert
    on_message id now last_renew (hello msg) w =
        (record w { panel = store_hello id msg w.panel }, last_renew, none)
    on_message id now last_renew (heartbeat days ip) w = (report id now days ip w, last_renew, none)
    on_message id now last_renew (applied days ip) w = (report id now days ip w, last_renew, none)
    on_message id now last_renew (renew csr) w =
        if ltb (now - last_renew) renew_cooldown_secs
        then (w, last_renew, none)
        else let (p, answer) = renew_cert sign id csr w.panel in
          (record w { panel = p }, now, answer)
    on_message id now last_renew other w = (w, last_renew, none)
