-- ===== src/Grant/Decimal.antt =====
-- The decimal print of a number, and its parse.
use rc_tunnel.Base.{
  ℕ, zero, suc, ◌+◌, ◌*◌, ◌/◌, ◌%◌, ◌-◌, ◌≤◌, ◌<◌, ◌≡◌, ◌≢◌, refl, ap, ◌∙◌, some, List, [], ◌∷◌,
  ◌++◌, map, arith, ltb, All, All-append, Text, str, decimal, Lacks, inl, inr, Bool-cases,
}
use mathlib.Core.List.{concat-ne-nil}
use rc_tunnel.Grant.{digits_value, parse_int, max_int64, parse_ports}

abbrev pub IsDigit : ℕ → Type 0
IsDigit c = (b'0' ≤ c) × (c ≤ b'9')

digits_value-append :
    (xs : Text) (acc v d : ℕ)
    → digits_value acc xs ≡ some v
    → IsDigit d
    → digits_value acc (xs ++ (d ∷ [])) ≡ some (v * 10 + (d - b'0'))
unfolding digits_value
digits_value-append [] acc v d h k = ground arith
digits_value-append (c ∷ xs) acc v d h k =
    ground (arith, digits_value-append xs (acc * 10 + (c - b'0')) v d)

digits_value-decimal : (f n : ℕ) → n < f → digits_value 0 (decimal f n) ≡ some n
unfolding decimal
digits_value-decimal zero n h = elim h [ ]
digits_value-decimal (suc f) n h = elim (Bool-cases (ltb n 10)) [
  | inl small ↦ rw small (unfold digits_value in ground arith)
  | inr big ↦ rw big (
      digits_value-append (decimal f (n / 10)) 0 (n / 10) (b'0' + n % 10)
        (digits_value-decimal f (n / 10) (ground arith)) (omega arith)
      ∙ ap some (omega arith))
]

decimal-IsDigit : (f n : ℕ) → All IsDigit (decimal f n)
unfolding decimal
decimal-IsDigit zero n = tt
decimal-IsDigit (suc f) n = elim (Bool-cases (ltb n 10)) [
  | inl small ↦ rw small (ground arith)
  | inr big ↦ rw big (
      All-append IsDigit (decimal f (n / 10)) ((b'0' + n % 10) ∷ []) (decimal-IsDigit f (n / 10))
        (omega arith))
]

pub str-IsDigit : (n : ℕ) → All IsDigit (str n)
unfolding str
str-IsDigit n = decimal-IsDigit (suc n) n

pub IsDigit-Lacks : (c : ℕ) (s : Text) → ¬ IsDigit c → All IsDigit s → Lacks c s
IsDigit-Lacks c [] no_digit h = tt
IsDigit-Lacks c (d ∷ s) no_digit (hd, h) =
    (λ e. no_digit (rw (← e) hd), IsDigit-Lacks c s no_digit h)

parse_int-digits :
    (s : Text) (n : ℕ)
    → All IsDigit s
    → digits_value 0 s ≡ some n
    → s ≢ []
    → n ≤ max_int64
    → parse_int s ≡ some n
unfolding parse_int
parse_int-digits [] n digits v ne h = absurd (ne refl)
parse_int-digits (c ∷ s) n digits v ne h = ground arith

pub str-ne-nil : (n : ℕ) → str n ≢ []
unfolding str
str-ne-nil n e = elim (Bool-cases (ltb n 10)) [
  | inl small ↦ let k = rw (decimal, small) at e in cc
  | inr big ↦ let k = rw (decimal, big) at e in concat-ne-nil (b'0' + n % 10) (decimal n (n / 10)) k
]

pub digits_value-str : (n : ℕ) → digits_value 0 (str n) ≡ some n
unfolding str
digits_value-str n = digits_value-decimal (suc n) n (omega arith)

-- A number that fits in 64 bits is read back from its decimal print.
pub parse_int-str : (n : ℕ) → n ≤ max_int64 → parse_int (str n) ≡ some n
parse_int-str n h = parse_int-digits (str n) n (str-IsDigit n) (digits_value-str n) (str-ne-nil n) h

pub parse_ports-str : (ns : List ℕ) → All (λ n. n ≤ max_int64) ns → parse_ports (map str ns) ≡ ns
unfolding parse_ports
parse_ports-str [] h = refl
parse_ports-str (n ∷ ns) (hn, h) = ground (arith, parse_int-str n hn, parse_ports-str ns h)
