-- ===== src/RateLimit/Table.antt =====
-- ratelimit.py: the size of the table of failures, and what is lost when it is full.
use rc_tunnel.Base.{
  ℕ, ◌≤◌, ◌+◌, ◌≡◌, refl, true, Option, none, some, [], ◌∷◌, ◌++◌, arith, length, All, Text, leb,
  le→leb, Bool-cases, inl, inr, length-select-le,
}
use rc_tunnel.Base.Dict.{text_key, length-put-le, length-pop-le}
use rc_tunnel.RateLimit.{
  Fails, max_ips, is_fresh, sweep_locked, fails_of, append_fail, record_fail, clear,
}

abbrev pub IsBounded : Fails → Type 0
IsBounded s = length s ≤ max_ips

length-append_fail :
    (now : ℕ) (ip : Text) (s : Fails) → length (append_fail now ip s) ≤ length s + 1
unfolding append_fail
length-append_fail now ip s = length-put-le ip (fails_of ip s ++ (now ∷ [])) s

length-sweep_locked : (now : ℕ) (s : Fails) → length (sweep_locked now s) ≤ length s
unfolding sweep_locked
length-sweep_locked now s = length-select-le (λ row. is_fresh now row.1) s

pub length-record_fail-le :
    (now : ℕ) (ip : Option Text) (s : Fails) → length (record_fail now ip s) ≤ length s + 1
unfolding record_fail
length-record_fail-le now none s = omega arith
length-record_fail-le now (some []) s = omega arith
length-record_fail-le now (some (c ∷ ip)) s =
    let swept = sweep_locked now s in
    elim (Bool-cases (leb max_ips (length s))) [
      | inl full ↦ rw full (elim (Bool-cases (leb max_ips (length swept))) [
        | inl still ↦ rw still (omega (arith, length-sweep_locked now s))
        | inr room ↦
            rw room
              (omega (arith, length-append_fail now (c ∷ ip) swept, length-sweep_locked now s))
      ])
      | inr room ↦ rw room (length-append_fail now (c ∷ ip) s)
    ]

pub record_fail-IsBounded :
    (now : ℕ) (ip : Option Text) (s : Fails) → IsBounded s → IsBounded (record_fail now ip s)
unfolding record_fail
record_fail-IsBounded now none s h = h
record_fail-IsBounded now (some []) s h = h
record_fail-IsBounded now (some (c ∷ ip)) s h =
    let swept = sweep_locked now s in
    elim (Bool-cases (leb max_ips (length s))) [
      | inl full ↦ rw full (elim (Bool-cases (leb max_ips (length swept))) [
        | inl still ↦ rw still (omega (arith, length-sweep_locked now s))
        | inr room ↦ rw room (ground (arith, length-append_fail now (c ∷ ip) swept))
      ])
      | inr room ↦ rw room (ground (arith, length-append_fail now (c ∷ ip) s))
    ]

pub length-clear : (ip : Option Text) (s : Fails) → length (clear ip s) ≤ length s
unfolding clear
length-clear none s = omega arith
length-clear (some []) s = omega arith
length-clear (some (c ∷ ip)) s = length-pop-le (c ∷ ip) s

-- every tracked IP has a failure that is not aged
abbrev pub AllFresh : ℕ → Fails → Type 0
AllFresh now = All (λ row. is_fresh now row.1 ≡ true)

sweep_locked-eq_self : (now : ℕ) (s : Fails) → AllFresh now s → sweep_locked now s ≡ s
unfolding sweep_locked
sweep_locked-eq_self now [] h = refl
sweep_locked-eq_self now (row ∷ s) (h, hs) = rw (h, sweep_locked-eq_self now s hs) refl

-- With at least `MAX_IPS` tracked IPs, each with a failure that is not aged, a failure is not
-- recorded at all, not even for an IP that is already tracked.
pub record_fail-full :
    (now : ℕ) (ip : Option Text) (s : Fails)
    → AllFresh now s
    → max_ips ≤ length s
    → record_fail now ip s ≡ s
unfolding record_fail
record_fail-full now none s fresh full = refl
record_fail-full now (some []) s fresh full = refl
record_fail-full now (some (c ∷ ip)) s fresh full =
    rw (sweep_locked-eq_self now s fresh, le→leb max_ips (length s) full) refl
