-- ===== src/Base/Dict.antt =====
-- Python's `dict`, as an association list in the order of insertion.
use Prim.Native.Nat.{ℕ, ◌+◌, ◌≤◌}
use mathlib.Core.Path.{◌≡◌, refl, sym, ◌∙◌}
use mathlib.Core.Logic.{◌↔◌, inl, inr}
use mathlib.Core.Bool.{Bool, true, false}
use mathlib.Core.List.{List, [], ◌∷◌}
use mathlib.Core.Option.{Option, none, some}
use native.Mathlib.Omega.{arith}
use rc_tunnel.Base.Tests.{◌==◌, if◌then◌else◌, Bool-cases}
use rc_tunnel.Base.Lists.{length, All}
use rc_tunnel.Base.Strings.{Text, text_eq, text_eq_iff}

-- Keys with a decidable equality.
pub record Eq (K : Type 0) : Type 0 where
  pub beq : K → K → Bool
  pub beq_iff : (a b : K) → (beq a b ≡ true) ↔ (a ≡ b)

pub number_eq_iff : (a b : ℕ) → ((a == b) ≡ true) ↔ (a ≡ b)
number_eq_iff a b = ground arith

instance abbrev pub number_key : Eq ℕ
number_key = record { beq = ◌==◌; beq_iff = number_eq_iff }

instance abbrev pub text_key : Eq Text
text_key = record { beq = text_eq; beq_iff = text_eq_iff }

module _ {K V : Type 0} ⦃e : Eq K⦄ where
  -- `d.get(k)`
  unfoldable pub get : K → List (K × V) → Option V
  get k [] = none
  get k ((j, v) ∷ d) = let rest = get k d in if e.beq j k then some v else rest

  -- `d[k] = v`
  unfoldable pub put : K → V → List (K × V) → List (K × V)
  put k v [] = (k, v) ∷ []
  put k v ((j, w) ∷ d) = let rest = put k v d in if e.beq j k then (j, v) ∷ d else (j, w) ∷ rest

  -- `d.pop(k, None)`
  unfoldable pub pop : K → List (K × V) → List (K × V)
  pop k [] = []
  pop k ((j, w) ∷ d) = let rest = pop k d in if e.beq j k then rest else (j, w) ∷ rest

  pub get-put :
      (k j : K) (v : V) (d : List (K × V))
      → get j (put k v d) ≡ (if e.beq k j then some v else get j d)
  unfolding get put
  get-put k j v [] = refl
  get-put k j v ((i, w) ∷ d) =
      ground (arith, e.beq_iff i k, e.beq_iff i j, e.beq_iff k j, get-put k j v d)

  pub get-pop :
      (k j : K) (d : List (K × V)) → get j (pop k d) ≡ (if e.beq k j then none else get j d)
  unfolding get pop
  get-pop k j [] = ground arith
  get-pop k j ((i, w) ∷ d) =
      ground (arith, e.beq_iff i k, e.beq_iff i j, e.beq_iff k j, get-pop k j d)

  pub put-All {ℓ} :
      (P : K × V → Type ℓ) (k : K) (v : V) (d : List (K × V))
      → P (k, v)
      → All P d
      → All P (put k v d)
  unfolding put
  put-All P k v [] p h = (p, tt)
  put-All P k v ((j, w) ∷ d) p (pj, h) = elim (Bool-cases (e.beq j k)) [
    | inl hit ↦ let same : k ≡ j = sym ((e.beq_iff j k).0 hit) in rw hit ((rw same at p), h)
    | inr miss ↦ rw miss (pj, put-All P k v d p h)
  ]

  pub pop-All {ℓ} : (P : K × V → Type ℓ) (k : K) (d : List (K × V)) → All P d → All P (pop k d)
  unfolding pop
  pop-All P k [] h = tt
  pop-All P k ((j, w) ∷ d) (pj, h) = elim (Bool-cases (e.beq j k)) [
    | inl hit ↦ rw hit (pop-All P k d h)
    | inr miss ↦ rw miss (pj, pop-All P k d h)
  ]

  pub get-pop_other : (k j : K) (d : List (K × V)) → e.beq k j ≡ false → get j (pop k d) ≡ get j d
  get-pop_other k j d h = get-pop k j d ∙ rw h refl

  pub get-All {ℓ} :
      (P : K × V → Type ℓ) (k : K) (v : V) (d : List (K × V))
      → get k d ≡ some v
      → All P d
      → P (k, v)
  unfolding get
  get-All P k v [] h all = absurd (cc)
  get-All P k v ((j, w) ∷ d) h (pj, all) = elim (Bool-cases (e.beq j k)) [
    | inl hit ↦
        let same : j ≡ k = (e.beq_iff j k).0 hit in
        let value : w ≡ v = ground arith in rw (same, value) at pj
    | inr miss ↦ get-All P k v d (ground arith) all
  ]

  pub get-put_other :
      (k j : K) (v : V) (d : List (K × V)) → e.beq k j ≡ false → get j (put k v d) ≡ get j d
  get-put_other k j v d h = get-put k j v d ∙ rw h refl

  pub get-put_same : (k : K) (v : V) (d : List (K × V)) → get k (put k v d) ≡ some v
  get-put_same k v d = get-put k k v d ∙ rw ((e.beq_iff k k).1 refl) refl

  -- what is there is written over with itself
  pub put-get : (k : K) (v : V) (d : List (K × V)) → get k d ≡ some v → put k v d ≡ d
  unfolding get put
  put-get k v [] h = absurd (cc)
  put-get k v ((j, w) ∷ d) h = ground (arith, put-get k v d)

  -- no key stands twice
  abbrev pub Distinct : List (K × V) → Type 0
  Distinct [] = Unit
  Distinct ((k, v) ∷ d) = (get k d ≡ none) × Distinct d

  pub put-Distinct : (k : K) (v : V) (d : List (K × V)) → Distinct d → Distinct (put k v d)
  unfolding get put
  put-Distinct k v [] h = (refl, tt)
  put-Distinct k v ((j, w) ∷ d) (new, h) = elim (Bool-cases (e.beq j k)) [
    | inl hit ↦ rw hit (new, h)
    | inr miss ↦
        rw miss
          (ground (arith, get-put k j v d, e.beq_iff j k, e.beq_iff k j), put-Distinct k v d h)
  ]

  pub length-put-le : (k : K) (v : V) (d : List (K × V)) → length (put k v d) ≤ length d + 1
  unfolding put
  length-put-le k v [] = omega arith
  length-put-le k v ((j, w) ∷ d) = ground (arith, length-put-le k v d)

  pub length-pop-le : (k : K) (d : List (K × V)) → length (pop k d) ≤ length d
  unfolding pop
  length-pop-le k [] = omega arith
  length-pop-le k ((j, w) ∷ d) = ground (arith, length-pop-le k d)

  -- a key that is there is written in place
  pub length-put_known :
      (k : K) (v w : V) (d : List (K × V)) → get k d ≡ some w → length (put k v d) ≡ length d
  unfolding get put
  length-put_known k v w [] h = cc
  length-put_known k v w ((j, u) ∷ d) h = ground (arith, length-put_known k v w d)

pub beq_refl : {K : Type 0} ⦃e : Eq K⦄ (k : K) → e.beq k k ≡ true
beq_refl ⦃e⦄ k = (e.beq_iff k k).1 refl
