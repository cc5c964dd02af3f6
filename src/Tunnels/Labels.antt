-- ===== src/Tunnels/Labels.antt =====
-- `_LABEL_RE`, `_RESERVED_LABELS`, `_check_subdomain_labels` and `_check_subdomain_depth`.
pub mod Alphabet
use rc_tunnel.Base.{
  ℕ, ◌+◌, Bool, true, false, ◌&&◌, ◌||◌, Option, none, some, List, [], ◌∷◌, length, select, leb,
  ltb, ◌==◌, Text, codes, text_member, lower_code, ◌++◌, split, Result, ok, reject_if, ◌>>◌,
  bad_label, reserved_label, too_deep, if◌then◌else◌,
}
use rc_tunnel.Settings.{Settings}

-- `[a-z0-9]` and `[a-z0-9-]`
abbrev pub is_alnum : ℕ → Bool
is_alnum c = (leb b'a' c && leb c b'z') || (leb b'0' c && leb c b'9')

abbrev pub is_label_code : ℕ → Bool
is_label_code c = is_alnum c || c == b'-'

-- `([a-z0-9-]*[a-z0-9])?`
unfoldable pub label_tail : Text → Bool
label_tail [] = true
label_tail (c ∷ []) = is_alnum c
label_tail (c ∷ d ∷ s) = is_label_code c && label_tail (d ∷ s)

-- `[a-z0-9]([a-z0-9-]*[a-z0-9])?`
unfoldable pub label_core : Text → Bool
unfolding label_tail
label_core [] = false
label_core (c ∷ s) = is_alnum c && label_tail s

-- `$` matches at the end, and also before a line feed at the end
abbrev pub drop_line_feed : Text → Text
drop_line_feed [] = []
drop_line_feed (c ∷ []) = if c == 10 then [] else c ∷ []
drop_line_feed (c ∷ d ∷ s) = c ∷ drop_line_feed (d ∷ s)

-- `str.lower` of one code point. Those outside ASCII stand for themselves, since what they lower to
-- is outside ASCII, too, save the kelvin sign, which lowers to `k`, and the capital I with a dot,
-- which lowers to `i` and a combining dot.
unfoldable pub lower_point : ℕ → Text
lower_point c =
    if c == 8490 then b'k' ∷ [] else if c == 304 then b'i' ∷ 775 ∷ [] else lower_code c ∷ []

-- `lab.lower()`
unfoldable pub lower_label : Text → Text
unfolding lower_point
lower_label [] = []
lower_label (c ∷ s) = lower_point c ++ lower_label s

-- `_LABEL_RE.match(s)`
unfoldable pub label_matches : Text → Bool
unfolding label_core
label_matches s = label_core (drop_line_feed s)

abbrev pub reserved_labels : List Text
reserved_labels =
    codes "_dmarc"
    ∷ codes "_domainkey"
    ∷ codes "autodiscover"
    ∷ codes "autoconfig"
    ∷ codes "ns"
    ∷ codes "ns1"
    ∷ codes "ns2"
    ∷ codes "mx"
    ∷ codes "mx1"
    ∷ codes "mx2"
    ∷ codes "dkim"
    ∷ codes "www"
    ∷ codes "rctunnel"
    ∷ codes "rc-tunnel"
    ∷ codes "rc"
    ∷ []

abbrev pub is_nonempty : Text → Bool
is_nonempty [] = false
is_nonempty (c ∷ s) = true

-- `[p for p in subdomain.split(".") if p]`
unfoldable pub labels_of : Text → List Text
unfolding split
labels_of subdomain = select is_nonempty (split b'.' subdomain)

-- the loop over the labels
unfoldable pub check_each : List Text → Result (Unit {0})
check_each [] = ok tt
check_each (lab ∷ labels) = do
  reject_if (if label_matches (lower_label lab) then false else true) 422 (bad_label lab)
  check_each labels

unfoldable pub check_first : List Text → Result (Unit {0})
check_first [] = ok tt
check_first (lab ∷ labels) =
    reject_if (text_member (lower_label lab) reserved_labels) 422 (reserved_label lab)

unfoldable pub check_subdomain_labels : Option Text → Result (Unit {0})
unfolding check_each check_first
check_subdomain_labels none = ok tt
check_subdomain_labels (some []) = ok tt
check_subdomain_labels (some (c ∷ s)) = do
  check_each (labels_of (c ∷ s))
  check_first (labels_of (c ∷ s))

abbrev pub one_if : Bool → ℕ
one_if true = 1
one_if false = 0

unfoldable pub check_subdomain_depth : Settings → Text → Bool → Result (Unit {0})
check_subdomain_depth s subdomain team_has_label =
    let depth = length (labels_of subdomain) + one_if team_has_label in
    reject_if (ltb s.subdomain_max_depth depth) 422 (too_deep depth)
