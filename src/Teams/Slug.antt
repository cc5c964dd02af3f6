-- ===== src/Teams/Slug.antt =====
-- rctunnel-panel/rctunnel_panel/api/teams.py: what a label is spelled with.
use rc_tunnel.Base.{
  ℕ, suc, ◌≤◌, ◌≡◌, Bool, true, false, ◌||◌, some, [], ◌∷◌, All, All-take, length, length-take-le,
  take, arith, Text, lower, lstrip, rstrip,
}
use rc_tunnel.Base.Splitting.{lstrip-All, rstrip-All}
use rc_tunnel.Teams.{is_slug_code, is_dash, dashed, nonempty_or_none, slug}

-- lower-case letters, digits and hyphens
abbrev pub IsLabel : Text → Type 0
IsLabel = All (λ c. (is_slug_code c || is_dash c) ≡ true)

-- a text that does not begin with a hyphen
abbrev pub NoDash : Text → Type 0
NoDash [] = Unit
NoDash (c ∷ s) = is_dash c ≡ false

dashed-IsLabel : (in_run : Bool) (s : Text) → IsLabel (dashed in_run s)
unfolding dashed
dashed-IsLabel in_run [] = tt
dashed-IsLabel in_run (c ∷ s) = ground (arith, dashed-IsLabel false s, dashed-IsLabel true s)

lstrip-NoDash : (s : Text) → NoDash (lstrip is_dash s)
lstrip-NoDash [] = tt
lstrip-NoDash (c ∷ s) = ground (arith, lstrip-NoDash s)

rstrip-NoDash : (s : Text) → NoDash s → NoDash (rstrip is_dash s)
rstrip-NoDash [] h = tt
rstrip-NoDash (c ∷ s) h = ground arith

take-NoDash : (n : ℕ) (s : Text) → NoDash s → NoDash (take (suc n) s)
take-NoDash n [] h = tt
take-NoDash n (c ∷ s) h = h

nonempty_or_none-eq-some : (v w : Text) → nonempty_or_none v ≡ some w → v ≡ w
nonempty_or_none-eq-some [] w h = cc
nonempty_or_none-eq-some (c ∷ v) w h = cc

-- A label that is derived from a name has at most 63 characters, each a lower-case letter, a digit
-- or a hyphen, and does not begin with a hyphen.
pub slug-IsLabel :
    (name label : Text)
    → slug name ≡ some label
    → IsLabel label × (length label ≤ 63) × NoDash label
unfolding slug
slug-IsLabel name label h =
    let core = lstrip is_dash (dashed false (lower name)) in
    let trimmed = rstrip is_dash core in
    let same = nonempty_or_none-eq-some (take 63 trimmed) label h in
    rw (← same) (
      All-take _ 63 trimmed
          (rstrip-All _ is_dash core (lstrip-All _ is_dash _ (dashed-IsLabel false (lower name)))),
      length-take-le 63 trimmed,
      take-NoDash 62 trimmed (rstrip-NoDash core (lstrip-NoDash (dashed false (lower name)))),
    )
