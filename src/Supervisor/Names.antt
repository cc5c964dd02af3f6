-- ===== src/Supervisor/Names.antt =====
-- rctunnel-panel/agent/rctunnel_agent.py: the names of the backups that `_self_upgrade` makes and
-- `_boot_guard` goes back to, and of the files that `_self_upgrade` writes before it moves them.
use rc_tunnel.Base.{
  ◌-◌, ◌≡◌, ◌≢◌, refl, ap, ◌∙◌, sym, subst, true, false, [], ◌∷◌, ◌++◌, append_assoc, length,
  length-append, take, arith, Text, codes, text_eq, text_eq→eq, text_eq_refl, ends_with, Bool-cases,
  inl, inr,
}
use mathlib.Core.List.{append_cancel_right}
use rc_tunnel.Supervisor.Boot.{without_bak}

abbrev pub bak_of : Text → Text
bak_of f = f ++ codes ".bak"

pub ends_with-append : (s t : Text) → ends_with t (s ++ t) ≡ true
ends_with-append [] [] = refl
ends_with-append [] (c ∷ t) = rw (text_eq_refl (c ∷ t)) refl
ends_with-append (d ∷ s) t = ground (arith, ends_with-append s t)

pub ends_with-split : (t s : Text) → ends_with t s ≡ true → (p : Text) × (s ≡ p ++ t)
ends_with-split t [] h = ([], sym (text_eq→eq t [] h))
ends_with-split t (c ∷ s) h = elim (Bool-cases (text_eq t (c ∷ s))) [
  | inl e ↦ ([], sym (text_eq→eq t (c ∷ s) e))
  | inr e ↦ let (p, split) = ends_with-split t s (ground arith) in (c ∷ p, ap (λ r. c ∷ r) split)
]

take-append : (s t : Text) → take (length s) (s ++ t) ≡ s
take-append [] t = refl
take-append (c ∷ s) t = ap (λ r. c ∷ r) (take-append s t)

pub without_bak-bak_of : (f : Text) → without_bak (bak_of f) ≡ f
unfolding without_bak
without_bak-bak_of f =
    let size : length (f ++ codes ".bak") - 4 ≡ length f =
      omega (arith, length-append f (codes ".bak")) in
    rw size (take-append f (codes ".bak"))

pub bak_of_inj : (f n : Text) → bak_of f ≡ bak_of n → f ≡ n
bak_of_inj f n = append_cancel_right f n (codes ".bak")

pub bak_of-ends_with : (f : Text) → ends_with (codes ".bak") (bak_of f) ≡ true
bak_of-ends_with f = ends_with-append f (codes ".bak")

-- a name with the ending `.bak` is that of a backup
pub bak_of-without_bak :
    (name : Text) → ends_with (codes ".bak") name ≡ true → name ≡ bak_of (without_bak name)
bak_of-without_bak name h =
    let (p, split) = ends_with-split (codes ".bak") name h in
    split ∙ sym (ap bak_of (ap without_bak split ∙ without_bak-bak_of p))

ends_with-cut : (t s u : Text) → ends_with (t ++ u) (s ++ u) ≡ true → ends_with t s ≡ true
ends_with-cut t s u h =
    let (p, split) = ends_with-split (t ++ u) (s ++ u) h in
    let same : s ≡ p ++ t = append_cancel_right s (p ++ t) u (split ∙ sym (append_assoc p t u)) in
    rw same (ends_with-append p t)

ends_with-extend : (t s u : Text) → ends_with t s ≡ true → ends_with (t ++ u) (s ++ u) ≡ true
ends_with-extend t s u h =
    let (p, split) = ends_with-split t s h in
    subst (λ r. ends_with (t ++ u) (r ++ u) ≡ true) (sym split)
      (subst (λ r. ends_with (t ++ u) r ≡ true) (sym (append_assoc p t u))
        (ends_with-append p (t ++ u)))

pub bak_of-source :
    (n : Text) → ends_with (codes ".py.bak") (bak_of n) ≡ true → ends_with (codes ".py") n ≡ true
bak_of-source n = ends_with-cut (codes ".py") n (codes ".bak")

-- not the backup of a backup
abbrev pub Single : Text → Type 0
Single name = ends_with (codes ".bak.bak") name ≡ false

abbrev pub IsPlain : Text → Type 0
IsPlain name = ends_with (codes ".bak") name ≡ false

pub bak_of-Single : (f : Text) → IsPlain f → Single (bak_of f)
bak_of-Single f plain = elim (Bool-cases (ends_with (codes ".bak.bak") (bak_of f))) [
  | inl e ↦ absurd (let bad = ends_with-cut (codes ".bak") f (codes ".bak") e in cc)
  | inr e ↦ e
]

pub Single-IsPlain : (f : Text) → Single (bak_of f) → IsPlain f
Single-IsPlain f single = elim (Bool-cases (ends_with (codes ".bak") f)) [
  | inl e ↦ absurd (let bad = ends_with-extend (codes ".bak") f (codes ".bak") e in cc)
  | inr e ↦ e
]

pub IsPlain-Single : (f : Text) → IsPlain f → Single f
IsPlain-Single f plain = elim (Bool-cases (ends_with (codes ".bak.bak") f)) [
  | inl e ↦ absurd (
      let (p, split) = ends_with-split (codes ".bak.bak") f e in
      let shape : f ≡ (p ++ codes ".bak") ++ codes ".bak" =
        split ∙ sym (append_assoc p (codes ".bak") (codes ".bak")) in
      let bad : ends_with (codes ".bak") f ≡ true =
        subst (λ r. ends_with (codes ".bak") r ≡ true) (sym shape)
          (ends_with-append (p ++ codes ".bak") (codes ".bak")) in
      cc)
  | inr e ↦ e
]

pub text_eq-plain :
    (b n : Text) → ends_with (codes ".bak") b ≡ true → IsPlain n → text_eq b n ≡ false
text_eq-plain b n h plain = elim (Bool-cases (text_eq b n)) [
  | inl e ↦ absurd (
      let same = text_eq→eq b n e in
      let bad : ends_with (codes ".bak") n ≡ true = rw (← same) h in cc)
  | inr e ↦ e
]

pub text_eq-bak_of : (f n : Text) → text_eq (bak_of f) (bak_of n) ≡ text_eq f n
text_eq-bak_of f n = elim (Bool-cases (text_eq f n)) [
  | inl e ↦ let same = text_eq→eq f n e in rw same (text_eq_refl (bak_of n) ∙ sym (text_eq_refl n))
  | inr e ↦ elim (Bool-cases (text_eq (bak_of f) (bak_of n))) [
    | inl g ↦ absurd (
        let same = bak_of_inj f n (text_eq→eq (bak_of f) (bak_of n) g) in
        let bad : text_eq f n ≡ true = rw same (text_eq_refl n) in cc)
    | inr g ↦ g ∙ sym e
  ]
]

abbrev pub new_of : Text → Text
new_of f = f ++ codes ".new"

-- not a file that an upgrade writes to move it
abbrev pub IsLasting : Text → Type 0
IsLasting name = ends_with (codes ".new") name ≡ false

new_of-ne-bak_of : (f n : Text) → new_of f ≢ bak_of n
new_of-ne-bak_of [] [] e =
    let bad : false ≡ true = ap (λ s. text_eq s (codes ".bak")) e in absurd (cc (bad))
new_of-ne-bak_of [] (c ∷ n) e = absurd (omega (arith, ap length e, length-append n (codes ".bak")))
new_of-ne-bak_of (c ∷ f) [] e = absurd (omega (arith, ap length e, length-append f (codes ".new")))
new_of-ne-bak_of (c ∷ f) (d ∷ n) e =
    new_of-ne-bak_of f n (let same : new_of f ≡ bak_of n = cc in same)

pub new_of-bak_of : (f n : Text) → text_eq (new_of f) (bak_of n) ≡ false
new_of-bak_of f n = elim (Bool-cases (text_eq (new_of f) (bak_of n))) [
  | inl e ↦ absurd (new_of-ne-bak_of f n (text_eq→eq (new_of f) (bak_of n) e))
  | inr e ↦ e
]

pub new_of-lasting : (f n : Text) → IsLasting n → text_eq (new_of f) n ≡ false
new_of-lasting f n lasting = elim (Bool-cases (text_eq (new_of f) n)) [
  | inl e ↦ absurd (
      let same = text_eq→eq (new_of f) n e in
      let bad : ends_with (codes ".new") n ≡ true =
        rw (← same) (ends_with-append f (codes ".new")) in
      cc)
  | inr e ↦ e
]

pub new_of-Single : (f : Text) → Single (new_of f)
new_of-Single f = elim (Bool-cases (ends_with (codes ".bak.bak") (new_of f))) [
  | inl e ↦ absurd (
      let (p, split) = ends_with-split (codes ".bak.bak") (new_of f) e in
      new_of-ne-bak_of f (p ++ codes ".bak")
        (split ∙ sym (append_assoc p (codes ".bak") (codes ".bak"))))
  | inr e ↦ e
]
