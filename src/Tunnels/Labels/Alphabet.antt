-- ===== src/Tunnels/Labels/Alphabet.antt =====
-- The code points of a subdomain that passes `_check_subdomain_labels`.
use rc_tunnel.Base.{
  ℕ, ◌≡◌, refl, Bool, true, ◌||◌, some, List, [], ◌∷◌, arith, ◌==◌, select, split, All, Text, Lacks,
  lower_code, Bool-cases, inl, inr, ok,
}
use rc_tunnel.Base.Splitting.{All-split}
use rc_tunnel.Tunnels.Labels.{
  is_label_code, lower_point, lower_label, label_tail, label_core, label_matches, drop_line_feed,
  is_nonempty, labels_of, check_each, check_subdomain_labels,
}

-- a letter of either case, a digit, a hyphen, a dot, a line feed, or the kelvin sign
abbrev pub is_subdomain_code : ℕ → Bool
is_subdomain_code c = is_label_code (lower_code c) || c == b'.' || c == 10 || c == 8490

abbrev pub Spelled : Text → Type 0
Spelled = All (λ c. is_subdomain_code c ≡ true)

label_tail-All : (s : Text) → label_tail s ≡ true → All (λ c. is_label_code c ≡ true) s
unfolding label_tail
label_tail-All [] h = tt
label_tail-All (c ∷ []) h = ground arith
label_tail-All (c ∷ d ∷ s) h = ground (arith, label_tail-All (d ∷ s))

label_core-All : (s : Text) → label_core s ≡ true → All (λ c. is_label_code c ≡ true) s
unfolding label_core
label_core-All [] h = tt
label_core-All (c ∷ s) h = ground (arith, label_tail-All s)

abbrev OrLineFeed : ℕ → Type 0
OrLineFeed c = (is_label_code c || c == 10) ≡ true

drop_line_feed-All :
    (s : Text) → All (λ c. is_label_code c ≡ true) (drop_line_feed s) → All OrLineFeed s
drop_line_feed-All [] h = tt
drop_line_feed-All (c ∷ []) h = ground arith
drop_line_feed-All (c ∷ d ∷ s) h = ground (arith, drop_line_feed-All (d ∷ s) h.1)

lower_label-Spelled : (s : Text) → All OrLineFeed (lower_label s) → Spelled s
unfolding lower_label lower_point
lower_label-Spelled [] h = tt
lower_label-Spelled (c ∷ s) h = elim (Bool-cases (c == 8490)) [
  | inl kelvin ↦ (rw kelvin (ground arith), lower_label-Spelled s (rw kelvin at h).1)
  | inr e ↦ elim (Bool-cases (c == 304)) [
    | inl dotted ↦ absurd (let k = (rw (e, dotted) at h).1.0 in cc)
    | inr f ↦ let k = rw (e, f) at h in (ground arith, lower_label-Spelled s k.1)
  ]
]

label-Spelled : (lab : Text) → label_matches (lower_label lab) ≡ true → Spelled lab
unfolding label_matches
label-Spelled lab h =
    lower_label-Spelled lab
      (drop_line_feed-All (lower_label lab) (label_core-All (drop_line_feed (lower_label lab)) h))

check_each-Spelled : (labels : List Text) → check_each labels ≡ ok tt → All Spelled labels
unfolding check_each
check_each-Spelled [] h = tt
check_each-Spelled (lab ∷ labels) h = elim (Bool-cases (label_matches (lower_label lab))) [
  | inl e ↦ (label-Spelled lab e, check_each-Spelled labels (ground arith))
  | inr e ↦ absurd (let k = rw e at h in cc)
]

-- the parts that were left out are empty
every_part : (ps : List Text) → All Spelled (select is_nonempty ps) → All Spelled ps
every_part [] h = tt
every_part ([] ∷ ps) h = (tt, every_part ps h)
every_part ((c ∷ p) ∷ ps) h = (h.0, every_part ps h.1)

checked_labels :
    (c : ℕ) (s : Text)
    → check_subdomain_labels (some (c ∷ s)) ≡ ok tt
    → check_each (labels_of (c ∷ s)) ≡ ok tt
unfolding check_subdomain_labels
checked_labels c s h = ground arith

-- Neither separator of a grant stands in a text that is spelled so.
pub Spelled-Lacks : (s : Text) → Spelled s → Lacks b',' s × Lacks b'|' s
Spelled-Lacks [] h = (tt, tt)
Spelled-Lacks (c ∷ s) (hc, h) =
    let (comma, bar) = Spelled-Lacks s h in ((ground arith, comma), (ground arith, bar))

-- An accepted subdomain is spelled with letters and digits of ASCII, hyphens, dots, line feeds and
-- kelvin signs (U+212A), and so with neither of the separators `,` and `|` of a grant.
pub check_subdomain_labels-Spelled :
    (s : Text) → check_subdomain_labels (some s) ≡ ok tt → Spelled s × Lacks b',' s × Lacks b'|' s
check_subdomain_labels-Spelled [] h = (tt, tt, tt)
check_subdomain_labels-Spelled (c ∷ s) h =
    let spelled : Spelled (c ∷ s) =
      All-split (λ d. is_subdomain_code d ≡ true) b'.' (c ∷ s) refl
        (every_part (split b'.' (c ∷ s))
          (unfold labels_of in check_each-Spelled (labels_of (c ∷ s)) (checked_labels c s h))) in
    let (comma, bar) = Spelled-Lacks (c ∷ s) spelled in (spelled, comma, bar)
