-- ===== src/Grant.antt =====
-- rctunnel-panel/rctunnel_panel/grant.py: the signed scope of an agent, and
-- rctunnel-engine/internal/grant/grant.go, which reads it. The keyed hash, HMAC-SHA256 printed as
-- base64url without padding, is third-party code and a parameter.
pub mod Decimal
pub mod RoundTrip
use rc_tunnel.Base.{
  ℕ, ◌+◌, ◌*◌, Bool, true, false, not, ◌||◌, Option, none, some, List, [], ◌∷◌, ◌++◌, map, select,
  any, ltb, leb, ◌==◌, member, Text, codes, text_eq, text_member, lower, strip, str, split, join,
  if◌then◌else◌, ◌-◌,
}
use rc_tunnel.Base.Sorted.{sorted_set, text_ltb}

-- seven days
abbrev pub grant_ttl : ℕ
grant_ttl = 7 * 24 * 3600

abbrev pub is_nonempty : Text → Bool
is_nonempty [] = false
is_nonempty (c ∷ s) = true

abbrev pub scope_ports : List ℕ → List ℕ
scope_ports ports = sorted_set ltb ports

-- `{h.strip().lower() for h in hosts if h and h.strip()}`, sorted
abbrev pub scope_hosts : List Text → List Text
scope_hosts hosts =
    sorted_set text_ltb (map (λ h. lower (strip h)) (select (λ h. is_nonempty (strip h)) hosts))

-- the signed part: `v1|cn|exp|ports|hosts`
unfoldable pub message : Text → ℕ → List ℕ → List Text → Text
message cn exp ports hosts =
    codes "v1|"
    ++ (cn
        ++ (b'|'
            ∷ (str exp
                ++ (b'|'
                    ∷ (join b',' (map str (scope_ports ports))
                        ++ (b'|' ∷ join b',' (scope_hosts hosts)))))))

-- Go's `strconv.ParseInt(s, 10, 64)` and `Atoi`: an optional sign, digits, a bound. A negative
-- number is reported as an error: no time is before it and no port is equal to it.
unfoldable pub digits_value : ℕ → Text → Option ℕ
digits_value acc [] = some acc
digits_value acc (c ∷ s) =
    let rest = digits_value (acc * 10 + (c - b'0')) s in
    if ltb c b'0' || ltb b'9' c then none else rest

abbrev pub max_int64 : ℕ
max_int64 = 9223372036854775807

abbrev pub in_int64 : Option ℕ → Option ℕ
in_int64 none = none
in_int64 (some n) = if leb n max_int64 then some n else none

abbrev pub unsigned : Text → Option ℕ
unsigned [] = none
unsigned (c ∷ s) = in_int64 (digits_value 0 (c ∷ s))

abbrev pub only_zero : Option ℕ → Option ℕ
only_zero none = none
only_zero (some n) = if n == 0 then some 0 else none

unfoldable pub parse_int : Text → Option ℕ
parse_int [] = none
parse_int (c ∷ s) =
    if c == b'+' then unsigned s else if c == b'-' then only_zero (unsigned s) else unsigned (c ∷ s)

-- `Grant`: the keys of the two maps
pub record Grant : Type 0 where
  pub cn : Text
  pub ports : List ℕ
  pub hosts : List Text

pub data Refusal : Type 0 where
  bad_format bad_signature cn_mismatch expired : Refusal

pub data Verdict : Type 0 where
  granted : Grant → Verdict
  refused : Refusal → Verdict

-- `for _, p := range strings.Split(…)`: what does not parse is skipped
unfoldable pub parse_ports : List Text → List ℕ
parse_ports [] = []
parse_ports (p ∷ ps) =
    let rest = parse_ports ps in elim (parse_int p) [ none ↦ rest | some n ↦ n ∷ rest ]

unfoldable pub ports_field : Text → List ℕ
unfolding parse_ports
ports_field [] = []
ports_field (c ∷ s) = parse_ports (split b',' (c ∷ s))

unfoldable pub hosts_field : Text → List Text
hosts_field [] = []
hosts_field (c ∷ s) = map lower (split b',' (c ∷ s))

abbrev pub is_expired : Option ℕ → ℕ → Bool
is_expired none now = true
is_expired (some exp) now = ltb exp now

module _ (hmac : Text → Text → Text) where
  unfoldable pub sign : Text → Text → List ℕ → List Text → ℕ → ℕ → Text
  sign secret cn ports hosts now ttl =
      let msg = message cn (now + ttl) ports hosts in msg ++ (b'|' ∷ hmac secret msg)

  -- `Verify` once the token is split into six parts
  unfoldable pub check_parts : Text → Text → ℕ → List Text → Verdict
  check_parts secret cn now (v ∷ name ∷ exp ∷ ports ∷ hosts ∷ sig ∷ []) =
      if not (text_eq v (codes "v1"))
      then refused bad_format
      else if not (text_eq (hmac secret (join b'|' (v ∷ name ∷ exp ∷ ports ∷ hosts ∷ []))) sig)
      then refused bad_signature
      else if not (text_eq name cn)
      then refused cn_mismatch
      else if is_expired (parse_int exp) now
      then refused expired
      else granted (record { cn = name; ports = ports_field ports; hosts = hosts_field hosts })
  check_parts secret cn now parts = refused bad_format

  unfoldable pub verify : Text → Text → Text → ℕ → Verdict
  unfolding check_parts
  verify secret token cn now = check_parts secret cn now (split b'|' token)

unfoldable pub allow_port : Grant → ℕ → Bool
allow_port g p = member p g.ports

unfoldable pub allow_host : Grant → Text → Bool
allow_host g h = text_member (lower h) g.hosts
