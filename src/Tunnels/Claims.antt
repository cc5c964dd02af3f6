-- ===== src/Tunnels/Claims.antt =====
-- rctunnel-panel/rctunnel_panel/api/tunnels.py: what `_check_custom_domains` says about the domains
-- of the other tunnels.
use rc_tunnel.Base.{
  >>=-eq-ok, ℕ, ◌≡◌, ◌≢◌, refl, false, Option, none, some, List, [], ◌∷◌, arith, select, All,
  Bool-cases, inl, inr, ok, Text, text_eq, text_eq→eq, text_member, split, if◌then◌else◌,
}
use rc_tunnel.Base.Sorted.{sorted_set, insert, text_ltb}
use rc_tunnel.Settings.{Settings}
use rc_tunnel.Models.{Panel, Tunnel}
use rc_tunnel.Tunnels.Domains.{
  is_excluded, domains_of, clash, reject_clash, check_claims, check_custom_domains,
}
use rc_tunnel.Tunnels.Hosts.{NoneShared, NoneShared-comm, owned_domains, DomainsApart}

insert-nonempty : (x : Text) (ys : List Text) → insert text_ltb x ys ≢ []
unfolding insert
insert-nonempty x [] h = cc
insert-nonempty x (y ∷ ys) h = ground arith

sorted_set-empty : (xs : List Text) → sorted_set text_ltb xs ≡ [] → xs ≡ []
unfolding sorted_set
sorted_set-empty [] h = refl
sorted_set-empty (x ∷ xs) h = absurd (insert-nonempty x (sorted_set text_ltb xs) h)

reject_clash-empty : (ds : List Text) → reject_clash ds ≡ ok tt → ds ≡ []
unfolding reject_clash
reject_clash-empty [] h = refl
reject_clash-empty (d ∷ ds) h = cc

-- what a selection that leaves nothing says
select-NoneShared : (ds es : List Text) → select (λ d. text_member d es) ds ≡ [] → NoneShared ds es
select-NoneShared [] es h d k = ground arith
select-NoneShared (e ∷ ds) es h d k = elim (Bool-cases (text_member e es)) [
  | inl hit ↦ (let j = rw hit at h in cc)
  | inr miss ↦ elim (Bool-cases (text_eq d e)) [
    | inl same ↦ rw (text_eq→eq d e same) miss
    | inr other ↦ select-NoneShared ds es (let j = rw miss at h in j) d (let j = rw other at k in j)
  ]
]

clash-NoneShared :
    (wanted : List Text) (owned : Option Text)
    → clash wanted owned ≡ []
    → NoneShared wanted (owned_domains owned)
clash-NoneShared wanted none h = λ d k. refl
clash-NoneShared wanted (some s) h = select-NoneShared wanted (domains_of s) h

check_claims-Apart :
    (wanted : List Text) (ex : Option ℕ) (ts : List Tunnel)
    → check_claims wanted ex ts ≡ ok tt
    → All (λ t. is_excluded ex t ≡ false → NoneShared (owned_domains t.custom_domains) wanted) ts
unfolding check_claims
check_claims-Apart wanted ex [] h = tt
check_claims-Apart wanted ex (t ∷ ts) h =
    let (_, first, rest) =
      >>=-eq-ok
        (if is_excluded ex t
          then ok tt
          else reject_clash (sorted_set text_ltb (clash wanted t.custom_domains)))
        _ h in
    (
      λ kept.
          let accepted : reject_clash (sorted_set text_ltb (clash wanted t.custom_domains))
              ≡ ok tt =
            ground arith in
          NoneShared-comm wanted (owned_domains t.custom_domains) (
            clash-NoneShared wanted t.custom_domains (
              sorted_set-empty (clash wanted t.custom_domains) (
                reject_clash-empty (sorted_set text_ltb (clash wanted t.custom_domains))
                  accepted))),
      check_claims-Apart wanted ex ts rest,
    )

no_domains-Apart :
    (ex : Option ℕ) (row : Tunnel)
    → ((ds : List Text) → NoneShared ds (owned_domains row.custom_domains))
    → (ts : List Tunnel) → All (λ t. is_excluded ex t ≡ false → DomainsApart t row) ts
no_domains-Apart ex row h [] = tt
no_domains-Apart ex row h (t ∷ ts) =
    (λ _. h (owned_domains t.custom_domains), no_domains-Apart ex row h ts)

-- Domains that passed the check are those of no other tunnel.
pub domains-Apart :
    (s : Settings) (p : Panel) (custom : Option Text) (ex : Option ℕ) (row : Tunnel)
    → row.custom_domains ≡ custom
    → check_custom_domains s p custom ex ≡ ok tt
    → All (λ t. is_excluded ex t ≡ false → DomainsApart t row) p.tunnels
unfolding check_custom_domains
domains-Apart s p none ex row at_custom h =
    no_domains-Apart ex row (λ ds d k. rw at_custom refl) p.tunnels
domains-Apart s p (some []) ex row at_custom h =
    no_domains-Apart ex row (λ ds d k. rw at_custom (unfold domains_of split in refl)) p.tunnels
domains-Apart s p (some (c ∷ custom)) ex row at_custom h =
    let wanted = domains_of (c ∷ custom) in
    let unclaimed : check_claims wanted ex p.tunnels ≡ ok tt = ground arith in
    rw at_custom (check_claims-Apart wanted ex p.tunnels unclaimed)
