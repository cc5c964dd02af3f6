-- ===== src/Control/Peer.antt =====
-- rctunnel-panel/rctunnel_panel/control/server.py: the agent that a client certificate names. The
-- subject of a certificate that TLS has verified is a list of names with attributes.
use rc_tunnel.Base.{
  ℕ, ◌+◌, ◌*◌, ◌-◌, ◌≡◌, ◌≢◌, refl, ap, true, ◌&&◌, Option, none, some, List, [], ◌∷◌, All, ◌==◌,
  arith, Text, codes, text_eq, starts_with, strip, str, ℤ, pos, negsuc, if◌then◌else◌, is_space,
  lstrip, rstrip,
}
use rc_tunnel.Versions.{int_of, int_core, digits}
use rc_tunnel.Protocol.{agent_cn}
use rc_tunnel.Grant.Decimal.{IsDigit, str-IsDigit, digits_value-str, str-ne-nil}
use rc_tunnel.Grant.{digits_value}
use rc_tunnel.Models.{Panel}
use rc_tunnel.Control.{Admission, closed, unknown_agent, admit}

-- `value.split(".", 1)[1]`
unfoldable pub after_dot : Text → Text
after_dot [] = []
after_dot (c ∷ s) = let rest = after_dot s in if c == b'.' then s else rest

abbrev pub Rdn : Type 0
Rdn = List (Text × Text)

-- what the loop over the attributes decides: it returns, or goes on
unfoldable pub named_agent : Rdn → Option (Option ℤ)
unfolding after_dot int_of
named_agent [] = none
named_agent ((key, value) ∷ rdn) =
    let rest = named_agent rdn in
    if text_eq key (codes "commonName") && starts_with (codes "agent.") value
    then some (int_of (after_dot value))
    else rest

unfoldable pub agent_id_of : List Rdn → Option ℤ
unfolding named_agent
agent_id_of [] = none
agent_id_of (rdn ∷ subject) =
    let rest = agent_id_of subject in elim (named_agent rdn) [ none ↦ rest | some id ↦ id ]

-- `_agent_id_from_cert`, where there may be no certificate
unfoldable pub agent_id_from_cert : Option (List Rdn) → Option ℤ
unfolding agent_id_of
agent_id_from_cert none = none
agent_id_from_cert (some subject) = agent_id_of subject

-- the first part of `_handle`; no row has a negative id
unfoldable pub admit_named : Option ℤ → Option ℕ → Panel → Panel × Admission
unfolding admit
admit_named none serial p = admit none serial p
admit_named (some (pos id)) serial p = admit (some id) serial p
admit_named (some (negsuc n)) serial p = (p, closed unknown_agent)

unfoldable pub admit_cert : Option (List Rdn) → Option ℕ → Panel → Panel × Admission
unfolding admit_named
admit_cert cert serial p = admit_named (agent_id_from_cert cert) serial p

lstrip-IsDigit : (s : Text) → All IsDigit s → lstrip is_space s ≡ s
lstrip-IsDigit [] h = refl
lstrip-IsDigit (c ∷ s) h = ground (arith, h.0)

rstrip-IsDigit : (s : Text) → All IsDigit s → rstrip is_space s ≡ s
rstrip-IsDigit [] h = refl
rstrip-IsDigit (c ∷ s) h = ground (arith, h.0, rstrip-IsDigit s h.1)

strip-IsDigit : (s : Text) → All IsDigit s → strip s ≡ s
strip-IsDigit s h = rw (lstrip-IsDigit s h) (rstrip-IsDigit s h)

digits-value : (acc : ℕ) (s : Text) → All IsDigit s → digits true acc s ≡ digits_value acc s
unfolding digits digits_value
digits-value acc [] h = refl
digits-value acc (c ∷ s) h = ground (arith, h.0, digits-value (acc * 10 + (c - b'0')) s h.1)

int_core-digits :
    (s : Text) (n : ℕ)
    → All IsDigit s
    → s ≢ []
    → digits_value 0 s ≡ some n
    → int_core s ≡ some (pos n)
unfolding int_core digits digits_value
int_core-digits [] n h ne v = absurd (ne refl)
int_core-digits (c ∷ s) n h ne v = ground (arith, h.0, v, digits-value (0 * 10 + (c - b'0')) s h.1)

int_of-str : (n : ℕ) → int_of (str n) ≡ some (pos n)
unfolding int_of
int_of-str n =
    rw (strip-IsDigit (str n) (str-IsDigit n))
      (int_core-digits (str n) n (str-IsDigit n) (str-ne-nil n) (digits_value-str n))

-- the subject that the panel's certificate authority writes
abbrev pub subject_for : Text → List Rdn
subject_for identity = ((codes "commonName", identity) ∷ []) ∷ []

-- The name that the panel signs for an agent is read back as the id of that agent.
pub agent_id_from_cert-agent_cn :
    (id : ℕ) → agent_id_from_cert (some (subject_for (agent_cn id))) ≡ some (pos id)
unfolding agent_id_from_cert agent_id_of named_agent after_dot agent_cn
agent_id_from_cert-agent_cn id = int_of-str id

-- A certificate with the name of an agent is treated as that agent.
pub admit_cert-agent_cn :
    (id : ℕ) (serial : Option ℕ) (p : Panel)
    → admit_cert (some (subject_for (agent_cn id))) serial p ≡ admit (some id) serial p
unfolding admit_cert
admit_cert-agent_cn id serial p =
    ap (λ named. admit_named named serial p) (agent_id_from_cert-agent_cn id)
