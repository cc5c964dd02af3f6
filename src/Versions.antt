-- ===== src/Versions.antt =====
-- rctunnel-panel/rctunnel_panel/control/server.py and agent/rctunnel_agent.py: versions as tuples of
-- integers, which the panel and the agent compare in the same way, and the panel's offer of an
-- upgrade. `int_of` is Python's `int` of ASCII text.
pub mod Order
use rc_tunnel.Base.{
  ℕ, ◌+◌, ◌-◌, ◌*◌, zero, suc, ℤ, pos, negsuc, Bool, true, false, not, ◌&&◌, ◌||◌, Option, none,
  some, List, [], ◌∷◌, ◌++◌, ltb, leb, ◌==◌, int_eq, Text, codes, strip, split, truthy, rstrip,
  starts_with, if◌then◌else◌,
}
use rc_tunnel.Settings.{Settings}

abbrev pub is_digit : ℕ → Bool
is_digit c = leb b'0' c && leb c b'9'

-- digits, with single underscores between them
unfoldable pub digits : Bool → ℕ → Text → Option ℕ
digits after_digit acc [] = if after_digit then some acc else none
digits after_digit acc (c ∷ s) =
    let more = digits true (acc * 10 + (c - b'0')) s in
    let skipped = digits false acc s in
    if is_digit c then more else if (c == b'_') && after_digit then skipped else none

abbrev pub negated : ℕ → ℤ
negated zero = pos 0
negated (suc n) = negsuc n

abbrev pub signed_int : (ℕ → ℤ) → Option ℕ → Option ℤ
signed_int f none = none
signed_int f (some n) = some (f n)

unfoldable pub int_core : Text → Option ℤ
unfolding digits
int_core [] = none
int_core (c ∷ s) =
    if c == b'-'
    then signed_int negated (digits false 0 s)
    else if c == b'+'
    then signed_int pos (digits false 0 s)
    else signed_int pos (digits false 0 (c ∷ s))

unfoldable pub int_of : Text → Option ℤ
unfolding int_core
int_of s = int_core (strip s)

abbrev pub Version : Type 0
Version = List ℤ

unfoldable pub ints_of : List Text → Option Version
ints_of [] = some []
ints_of (s ∷ ss) =
    let rest = ints_of ss in
    elim (int_of s) [ none ↦ none | some n ↦ elim rest [ none ↦ none | some ns ↦ some (n ∷ ns) ] ]

abbrev pub or_zero : Option Version → Version
or_zero none = pos 0 ∷ []
or_zero (some v) = v

-- `_vtuple`
unfoldable pub vtuple : Text → Version
vtuple s = or_zero (ints_of (split b'.' s))

-- `<` and `<=` on integers, and on tuples of them
abbrev pub int_ltb : ℤ → ℤ → Bool
int_ltb (pos a) (pos b) = ltb a b
int_ltb (pos a) (negsuc b) = false
int_ltb (negsuc a) (pos b) = true
int_ltb (negsuc a) (negsuc b) = ltb b a

unfoldable pub version_ltb : Version → Version → Bool
version_ltb [] [] = false
version_ltb [] (n ∷ v) = true
version_ltb (m ∷ u) [] = false
version_ltb (m ∷ u) (n ∷ v) = int_ltb m n || (int_eq m n && version_ltb u v)

unfoldable pub version_leb : Version → Version → Bool
version_leb [] v = true
version_leb (m ∷ u) [] = false
version_leb (m ∷ u) (n ∷ v) = int_ltb m n || (int_eq m n && version_leb u v)

-- what publish.py wrote
pub record Manifest : Type 0 where
  pub agent_version : Option Text
  pub files : Option (List Text)
  pub sha256 : List (Text × Text)

-- the message of `upgrade_payload`
pub record Upgrade : Type 0 where
  pub version : Text
  pub base_url : Text
  pub files : List Text
  pub sha256 : List (Text × Text)

abbrev pub default_files : List Text
default_files = codes "rctunnel_agent.py" ∷ codes "localip.py" ∷ []

-- `files or […]`
abbrev pub files_or : Option (List Text) → List Text
files_or none = default_files
files_or (some []) = default_files
files_or (some (f ∷ fs)) = f ∷ fs

unfoldable pub upgrade_payload : Text → Text → Option (List Text) → List (Text × Text) → Upgrade
upgrade_payload version base_url files sha256 = record {
  version = version;
  base_url = base_url;
  files = files_or files;
  sha256 = sha256;
}

abbrev pub or_zero_text : Option Text → Text
or_zero_text none = codes "0"
or_zero_text (some v) = v

-- the offer, to an agent that said hello with this version
unfoldable pub maybe_upgrade : Settings → Manifest → Option Text → Option Upgrade
unfolding upgrade_payload
maybe_upgrade s m hello_version = elim m.agent_version [
  | none ↦ none
  | some target ↦
      if truthy (some target) && version_ltb (vtuple (or_zero_text hello_version)) (vtuple target)
      then some (
          upgrade_payload target (rstrip (λ c. c == b'/') s.public_base_url ++ codes "/dl") m.files
            m.sha256)
      else none
]
