-- ===== src/Base/Relations.antt =====
-- Relations between any two rows of a table, under the updates that the program makes.
use Prim.Native.Nat.{ℕ}
use mathlib.Core.Path.{◌≡◌, refl}
use mathlib.Core.Logic.{◌≢◌, inl, inr}
use mathlib.Core.Bool.{Bool}
use mathlib.Core.List.{List, [], ◌∷◌, ◌++◌}
use mathlib.Core.Option.{some}
use native.Mathlib.Omega.{arith}
use rc_tunnel.Base.Tests.{◌==◌, Bool-cases, ==→eq}
use rc_tunnel.Base.Lists.{select, find, update, All, All-select, Pairs}

module _ {A : Type 0} (R : A → A → Type 0) where
  pub Pairs-append :
      (xs : List A) (row : A) → Pairs R xs → All (λ x. R x row) xs → Pairs R (xs ++ (row ∷ []))
  Pairs-append [] row h k = (tt, tt)
  Pairs-append (x ∷ xs) row (hx, h) (kx, k) = (ends xs hx, Pairs-append xs row h k)
    where
      ends : (ys : List A) → All (R x) ys → All (R x) (ys ++ (row ∷ []))
      ends [] _ = (kx, tt)
      ends (y ∷ ys) (hy, hys) = (hy, ends ys hys)

  pub Pairs-select : (p : A → Bool) (xs : List A) → Pairs R xs → Pairs R (select p xs)
  Pairs-select p [] h = tt
  Pairs-select p (x ∷ xs) (hx, h) = elim (Bool-cases (p x)) [
    | inl e ↦ rw e (All-select (R x) p xs hx, Pairs-select p xs h)
    | inr e ↦ rw e (Pairs-select p xs h)
  ]

module _ {A : Type 0} (id : A → ℕ) where
  -- no two rows have the same key
  abbrev pub Distinct : List A → Type 0
  Distinct = Pairs (λ x y. id x ≢ id y)

  pub update_absent :
      (k : ℕ) (f : A → A) (xs : List A) → All (λ x. k ≢ id x) xs → update (λ x. id x == k) f xs ≡ xs
  update_absent k f [] h = refl
  update_absent k f (x ∷ xs) h = ground (arith, update_absent k f xs h.1)

  pub find-key : (k : ℕ) (xs : List A) (a : A) → find (λ x. id x == k) xs ≡ some a → id a ≡ k
  find-key k [] a h = cc
  find-key k (x ∷ xs) a h = ground (arith, find-key k xs a)

  pub find-All :
      (P : A → Type 0) (k : ℕ) (xs : List A) (a : A)
      → find (λ x. id x == k) xs ≡ some a
      → All P xs
      → P a
  find-All P k [] a e h = cc
  find-All P k (x ∷ xs) a e (hx, h) = elim (Bool-cases (id x == k)) [
    | inl hit ↦ let same : x ≡ a = ground arith in rw same at hx
    | inr miss ↦ find-All P k xs a (ground arith) h
  ]

module _ {A : Type 0} (id : A → ℕ) (R : A → A → Type 0) (k : ℕ) (row : A) where
  update-ends :
      (x : A) (xs : List A)
      → R x row
      → All (R x) xs
      → All (R x) (update (λ y. id y == k) (λ _. row) xs)
  update-ends x [] hr h = tt
  update-ends x (y ∷ ys) hr (hy, h) = elim (Bool-cases (id y == k)) [
    | inl e ↦ rw e (hr, update-ends x ys hr h)
    | inr e ↦ rw e (hy, update-ends x ys hr h)
  ]

  from_row :
      (xs : List A)
      → All (λ x. k ≢ id x) xs
      → All (λ x. id x ≢ k → R x row × R row x) xs
      → All (R row) xs
  from_row [] d h = tt
  from_row (x ∷ xs) (dx, d) (hx, h) = ((hx (λ e. dx (sym_of e))).1, from_row xs d h)
    where
      sym_of : id x ≡ k → k ≡ id x
      sym_of e = cc

  -- One row is replaced by one that is related to all the others.
  pub Pairs-update :
      (xs : List A)
      → Distinct id xs
      → Pairs R xs
      → All (λ x. id x ≢ k → R x row × R row x) xs
      → Pairs R (update (λ x. id x == k) (λ _. row) xs)
  Pairs-update [] d h g = tt
  Pairs-update (x ∷ xs) (dx, d) (hx, h) (gx, g) = elim (Bool-cases (id x == k)) [
    | inl e ↦
        let same : id x ≡ k = ==→eq (id x) k e in
        let absent : All (λ y. k ≢ id y) xs = rw same at dx in
        rw (e, update_absent id k (λ _. row) xs absent) (from_row xs absent g, h)
    | inr e ↦
        let other : id x ≢ k = ground arith in
        rw e (update-ends x xs (gx other).0 hx, Pairs-update xs d h g)
  ]

module _ {A : Type 0} (id : A → ℕ) (R : A → A → Type 0) (comm : (x y : A) → R x y → R y x)
    (k : ℕ) where
  rows_to : (xs : List A) (a : A) → All (R a) xs → All (λ x. id x ≢ k → R x a) xs
  rows_to [] a h = tt
  rows_to (x ∷ xs) a (hx, h) = (λ _. comm a x hx, rows_to xs a h)

  -- the row with the key `k` is related to every other row
  pub Pairs-others :
      (xs : List A) (a : A)
      → Pairs R xs
      → find (λ x. id x == k) xs ≡ some a
      → All (λ x. id x ≢ k → R x a) xs
  Pairs-others [] a h e = cc
  Pairs-others (x ∷ xs) a (hx, h) e = elim (Bool-cases (id x == k)) [
    | inl hit ↦
        let same : x ≡ a = ground arith in
        let at_k : id x ≡ k = ==→eq (id x) k hit in
        (λ other. absurd (other at_k), rows_to xs a (rw same at hx))
    | inr miss ↦
        let found : find (λ y. id y == k) xs ≡ some a = ground arith in
        (λ _. find-All id (R x) k xs a found hx, Pairs-others xs a h found)
  ]

  -- what is known of one order holds of both
  pub both_ways :
      (xs : List A) (a : A)
      → All (λ x. id x ≢ k → R x a) xs
      → All (λ x. id x ≢ k → R x a × R a x) xs
  both_ways [] a h = tt
  both_ways (x ∷ xs) a (hx, h) = (λ other. (hx other, comm x a (hx other)), both_ways xs a h)
