-- ===== src/Control/Telemetry.antt =====
-- rctunnel-panel/rctunnel_panel/control/server.py: what an agent can write into the columns that
-- operators see.
use rc_tunnel.Base.{
  ℕ, ◌≤◌, ◌≡◌, false, Option, none, some, [], ◌∷◌, All, All-take, length, length-take-le, take,
  Bool-cases, inl, inr, Text, strip,
}
use rc_tunnel.Base.Splitting.{strip-All}
use rc_tunnel.Schemas.{is_bad_code}
use rc_tunnel.Control.{clean, clean_telemetry, nonempty_or_none}

-- no control character and no markup character
abbrev pub Harmless : Text → Type 0
Harmless = All (λ c. is_bad_code c ≡ false)

clean-Harmless : (v : Text) → Harmless (clean v)
unfolding clean
clean-Harmless [] = tt
clean-Harmless (c ∷ v) = elim (Bool-cases (is_bad_code c)) [
  | inl e ↦ rw e (clean-Harmless v)
  | inr e ↦ rw e (e, clean-Harmless v)
]

nonempty_or_none-eq-some : (v w : Text) → nonempty_or_none v ≡ some w → v ≡ w
nonempty_or_none-eq-some [] w h = cc
nonempty_or_none-eq-some (c ∷ v) w h = cc

-- What is stored of a text that an agent sends has no control and no markup character, and at most
-- `maxlen` characters.
pub clean_telemetry-Harmless :
    (maxlen : ℕ) (v : Option Text) (w : Text)
    → clean_telemetry maxlen v ≡ some w
    → Harmless w × (length w ≤ maxlen)
unfolding clean_telemetry
clean_telemetry-Harmless maxlen none w h = cc
clean_telemetry-Harmless maxlen (some v) w h =
    let e = nonempty_or_none-eq-some (take maxlen (strip (clean v))) w h in
    rw (← e) (
      All-take (λ c. is_bad_code c ≡ false) maxlen (strip (clean v))
          (strip-All (λ c. is_bad_code c ≡ false) (clean v) (clean-Harmless v)),
      length-take-le maxlen (strip (clean v)),
    )
