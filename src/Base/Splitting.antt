-- ===== src/Base/Splitting.antt =====
-- What `split` and `join` do to one another, and to the code points of a text.
use mathlib.Core.Path.{◌≡◌, refl, ap}
use mathlib.Core.Logic.{◌≢◌, inl, inr}
use mathlib.Core.Bool.{Bool}
use mathlib.Core.List.{List, [], ◌∷◌, ◌++◌}
use Prim.Native.Nat.{ℕ}
use native.Mathlib.Omega.{arith}
use rc_tunnel.Base.Tests.{◌==◌, Bool-cases, if◌then◌else◌, ==→eq}
use rc_tunnel.Base.Lists.{All, All-append}
use rc_tunnel.Base.Strings.{
  Text, Lacks, push, split, join, lower, lower_code, strip, lstrip, rstrip, is_space,
}

split-ne-nil : (sep : ℕ) (s : Text) → split sep s ≢ []
unfolding split
split-ne-nil sep [] e = cc
split-ne-nil sep (c ∷ s) e = ground (arith, split-ne-nil sep s)

-- a text without the separator is one part
pub split-Lacks : (sep : ℕ) (s : Text) → Lacks sep s → split sep s ≡ s ∷ []
unfolding split
split-Lacks sep [] h = refl
split-Lacks sep (c ∷ s) (hc, h) = rw (split-Lacks sep s h) (ground arith)

-- and before a separator it is the first part
pub split-cons :
    (sep : ℕ) (s rest : Text) → Lacks sep s → split sep (s ++ (sep ∷ rest)) ≡ s ∷ split sep rest
unfolding split
split-cons sep [] rest h = ground arith
split-cons sep (c ∷ s) rest (hc, h) = rw (split-cons sep s rest h) (ground arith)

-- Splitting a join gives the parts back, if there is one and none holds the separator.
pub split-join :
    (sep : ℕ) (p : Text) (ps : List Text)
    → All (Lacks sep) (p ∷ ps)
    → split sep (join sep (p ∷ ps)) ≡ p ∷ ps
unfolding join
split-join sep p [] (hp, h) = split-Lacks sep p hp
split-join sep p (q ∷ ps) (hp, h) =
    rw (split-cons sep p (join sep (q ∷ ps)) hp, split-join sep q ps h) refl

-- what holds of every code point of the parts and of the separator holds of the join
pub join-All :
    (P : ℕ → Type 0) (sep : ℕ) (ps : List Text) → P sep → All (All P) ps → All P (join sep ps)
unfolding join
join-All P sep [] h k = tt
join-All P sep (p ∷ []) h (kp, k) = kp
join-All P sep (p ∷ q ∷ ps) h (kp, k) =
    All-append P p (sep ∷ join sep (q ∷ ps)) kp (h, join-All P sep (q ∷ ps) h k)

push-All :
    (P : ℕ → Type 0) (c : ℕ) (ps : List Text) → P c → All (All P) ps → All (All P) (push c ps)
push-All P c [] hc h = ((hc, tt), tt)
push-All P c (p ∷ ps) hc (hp, h) = ((hc, hp), h)

-- what holds of the code points of a text holds of those of its parts
pub split-All : (P : ℕ → Type 0) (sep : ℕ) (s : Text) → All P s → All (All P) (split sep s)
unfolding split
split-All P sep [] h = (tt, tt)
split-All P sep (c ∷ s) (hc, h) = elim (Bool-cases (c == sep)) [
  | inl e ↦ rw e (tt, split-All P sep s h)
  | inr e ↦ rw e (push-All P c (split sep s) hc (split-All P sep s h))
]

push-Lacks :
    (sep c : ℕ) (ps : List Text) → c ≢ sep → All (Lacks sep) ps → All (Lacks sep) (push c ps)
push-Lacks sep c ps = push-All (λ d. d ≢ sep) c ps

-- no part holds the separator
pub split-separator : (sep : ℕ) (s : Text) → All (Lacks sep) (split sep s)
unfolding split
split-separator sep [] = (tt, tt)
split-separator sep (c ∷ s) = elim (Bool-cases (c == sep)) [
  | inl e ↦ rw e (tt, split-separator sep s)
  | inr e ↦ rw e (push-Lacks sep c (split sep s) (ground arith) (split-separator sep s))
]

-- a property of the code points of the nonempty parts, and of the separator, is one of the text
pub All-split : (P : ℕ → Type 0) (sep : ℕ) (s : Text) → P sep → All (All P) (split sep s) → All P s
unfolding split
All-split P sep [] hs h = tt
All-split P sep (c ∷ s) hs h = elim (Bool-cases (c == sep)) [
  | inl e ↦
      let same : c ≡ sep = ==→eq c sep e in
      let k : All (All P) ([] ∷ split sep s) = rw e at h in (rw same hs, All-split P sep s hs k.1)
  | inr e ↦
      let k : All (All P) (push c (split sep s)) = rw e at h in
      let (hc, rest) = All-push P c (split sep s) k in (hc, All-split P sep s hs rest)
]
  where
    All-push :
        (P : ℕ → Type 0) (c : ℕ) (ps : List Text) → All (All P) (push c ps) → P c × All (All P) ps
    All-push P c [] k = (k.0.0, tt)
    All-push P c (p ∷ ps) k = (k.0.0, (k.0.1, k.1))

pub lstrip-All : (P : ℕ → Type 0) (q : ℕ → Bool) (s : Text) → All P s → All P (lstrip q s)
lstrip-All P q [] h = tt
lstrip-All P q (c ∷ s) h = ground (arith, lstrip-All P q s h.1)

pub rstrip-All : (P : ℕ → Type 0) (q : ℕ → Bool) (s : Text) → All P s → All P (rstrip q s)
rstrip-All P q [] h = tt
rstrip-All P q (c ∷ s) (hc, h) = one (rstrip q s) (rstrip-All P q s h)
  where
    one :
        (r : Text)
        → All P r
        → All P (elim r [ [] ↦ if q c then [] else c ∷ [] | d ∷ t ↦ c ∷ d ∷ t ])
    one [] k = elim (Bool-cases (q c)) [ inl e ↦ rw e tt | inr e ↦ rw e (hc, tt) ]
    one (d ∷ t) k = (hc, k)

pub strip-All : (P : ℕ → Type 0) (s : Text) → All P s → All P (strip s)
strip-All P s h = rstrip-All P is_space (lstrip is_space s) (lstrip-All P is_space s h)

pub lower-lower : (s : Text) → lower (lower s) ≡ lower s
lower-lower [] = refl
lower-lower (c ∷ s) = rw (lower-lower s) (ap (λ d. d ∷ lower s) (twice c))
  where
    twice : (d : ℕ) → lower_code (lower_code d) ≡ lower_code d
    twice d = ground arith
