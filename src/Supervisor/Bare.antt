-- ===== src/Supervisor/Bare.antt =====
-- rctunnel-panel/rctunnel_panel/control/protocol.py and grant.py: hosts, which the configuration
-- strips and the grant strips again.
use rc_tunnel.Base.{
  ℕ, ◌≡◌, refl, ap, ◌∙◌, Bool, true, false, List, [], ◌∷◌, map, select, All, Bool-cases, inl, inr,
  arith, Text, strip, lstrip, rstrip, is_space, lower, if◌then◌else◌,
}
use rc_tunnel.Grant.{is_nonempty}
use rc_tunnel.Protocol.Scope.{trimmed}

rstrip-rstrip : (p : ℕ → Bool) (s : Text) → rstrip p (rstrip p s) ≡ rstrip p s
rstrip-rstrip p [] = refl
rstrip-rstrip p (c ∷ s) = ground (arith, rstrip-rstrip p s)

-- a text with no blank in front
Fronted : Text → Type 0
Fronted [] = Unit
Fronted (c ∷ s) = is_space c ≡ false

lstrip-Fronted : (s : Text) → Fronted (lstrip is_space s)
unfolding Fronted
lstrip-Fronted [] = tt
lstrip-Fronted (c ∷ s) = elim (Bool-cases (is_space c)) [
  | inl e ↦ rw e (lstrip-Fronted s)
  | inr e ↦ rw e e
]

lstrip-front :
    (c : ℕ) (t : Text)
    → is_space c ≡ false
    → lstrip is_space (elim t [ [] ↦ if is_space c then [] else c ∷ [] | d ∷ u ↦ c ∷ d ∷ u ])
      ≡ (elim t [ [] ↦ if is_space c then [] else c ∷ [] | d ∷ u ↦ c ∷ d ∷ u ])
lstrip-front c [] f = rw (f, f) refl
lstrip-front c (d ∷ u) f = rw f refl

lstrip-rstrip : (s : Text) → Fronted s → lstrip is_space (rstrip is_space s) ≡ rstrip is_space s
unfolding Fronted
lstrip-rstrip [] f = refl
lstrip-rstrip (c ∷ s) f = lstrip-front c (rstrip is_space s) f

strip-strip : (s : Text) → strip (strip s) ≡ strip s
strip-strip s =
    ap (rstrip is_space) (lstrip-rstrip (lstrip is_space s) (lstrip-Fronted s))
    ∙ rstrip-rstrip is_space (lstrip is_space s)

-- what is left of a host after `strip`, if something is
abbrev pub Bare : Text → Type 0
Bare h = (strip h ≡ h) × (is_nonempty (strip h) ≡ true)

pub trimmed-Bare : (hs : List Text) → All Bare (trimmed hs)
trimmed-Bare [] = tt
trimmed-Bare (h ∷ hs) = elim (Bool-cases (is_nonempty (strip h))) [
  | inl e ↦ rw e ((strip-strip h, rw (strip-strip h) e), trimmed-Bare hs)
  | inr e ↦ rw e (trimmed-Bare hs)
]

pub scope-Bare :
    (hs : List Text)
    → All Bare hs
    → map (λ h. lower (strip h)) (select (λ h. is_nonempty (strip h)) hs) ≡ map lower hs
scope-Bare [] k = refl
scope-Bare (h ∷ hs) ((same, some_left), k) =
    rw some_left (rw same (ap (λ gs. lower h ∷ gs) (scope-Bare hs k)))
