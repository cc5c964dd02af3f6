-- ===== src/Base/Sorted.antt =====
-- `sorted(set(xs))`: insertion into a list without repetitions.
use mathlib.Core.Path.{◌≡◌, refl}
use mathlib.Core.Bool.{Bool, false, ◌||◌}
use mathlib.Core.List.{List, [], ◌∷◌}
use Prim.Native.Nat.{ℕ}
use native.Mathlib.Omega.{arith}
use rc_tunnel.Base.Tests.{ltb, ◌==◌, if◌then◌else◌}
use rc_tunnel.Base.Lists.{any, All}
use rc_tunnel.Base.Strings.{Text}

-- the order of texts by code points
abbrev pub text_ltb : Text → Text → Bool
text_ltb [] [] = Bool.false
text_ltb [] (d ∷ t) = Bool.true
text_ltb (c ∷ s) [] = Bool.false
text_ltb (c ∷ s) (d ∷ t) = let rest = text_ltb s t in if c == d then rest else ltb c d

module _ {A : Type 0} (lt : A → A → Bool) where
  unfoldable pub insert : A → List A → List A
  insert x [] = x ∷ []
  insert x (y ∷ ys) =
      let rest = insert x ys in if lt x y then x ∷ y ∷ ys else if lt y x then y ∷ rest else y ∷ ys

  unfoldable pub sorted_set : List A → List A
  unfolding insert
  sorted_set [] = []
  sorted_set (x ∷ xs) = insert x (sorted_set xs)

  pub insert-All : (P : A → Type 0) (x : A) (ys : List A) → P x → All P ys → All P (insert x ys)
  unfolding insert
  insert-All P x [] px h = (px, tt)
  insert-All P x (y ∷ ys) px h = ground (arith, insert-All P x ys px h.1)

  pub sorted_set-All : (P : A → Type 0) (xs : List A) → All P xs → All P (sorted_set xs)
  unfolding sorted_set
  sorted_set-All P [] h = tt
  sorted_set-All P (x ∷ xs) h = insert-All P x (sorted_set xs) h.0 (sorted_set-All P xs h.1)

  -- what `not lt x y` both ways says of two values
  module _ (eq : A → A → Bool)
      (same : (z x y : A) → lt x y ≡ false → lt y x ≡ false → eq z x ≡ eq z y) where
    pub any-insert : (z x : A) (ys : List A) → any (eq z) (insert x ys) ≡ (eq z x || any (eq z) ys)
    unfolding insert
    any-insert z x [] = refl
    any-insert z x (y ∷ ys) = ground (arith, any-insert z x ys, same z x y)

    pub any-sorted_set : (z : A) (xs : List A) → any (eq z) (sorted_set xs) ≡ any (eq z) xs
    unfolding sorted_set
    any-sorted_set z [] = refl
    any-sorted_set z (x ∷ xs) = ground (arith, any-insert z x (sorted_set xs), any-sorted_set z xs)

pub ltb-same : (z x y : ℕ) → ltb x y ≡ false → ltb y x ≡ false → (z == x) ≡ (z == y)
ltb-same z x y h k = ground arith

pub text_ltb-same : (x y : Text) → text_ltb x y ≡ false → text_ltb y x ≡ false → x ≡ y
text_ltb-same [] [] h k = refl
text_ltb-same [] (d ∷ t) h k = cc
text_ltb-same (c ∷ s) [] h k = cc
text_ltb-same (c ∷ s) (d ∷ t) h k = ground (arith, text_ltb-same s t)
