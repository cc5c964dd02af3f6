-- ===== src/Grant/RoundTrip.antt =====
-- `sign` of grant.py against `Verify` of grant.go.
use rc_tunnel.Base.{
  ℕ, ◌+◌, ◌≤◌, ◌<◌, ◌≡◌, ◌≢◌, ◌⊎◌, refl, ap, ◌∙◌, true, List, [], ◌∷◌, ◌++◌, map, append_assoc,
  arith, ltb, ◌==◌, member, All, Text, codes, if◌then◌else◌, text_eq, text_eq_refl, text_member,
  lower, str, split, join, Lacks, Bool-cases, inl, inr, select, strip,
}
use rc_tunnel.Base.Sorted.{sorted_set-All, any-sorted_set, ltb-same, text_ltb-same, text_ltb}
use rc_tunnel.Base.Splitting.{split-join, join-All, lower-lower, strip-All}
use rc_tunnel.Grant.{
  parse_ports, Grant, granted, refused, expired, cn_mismatch, message, scope_ports, scope_hosts,
  ports_field, hosts_field, sign, check_parts, verify, allow_port, allow_host, max_int64,
  is_nonempty,
}
use rc_tunnel.Grant.Decimal.{
  IsDigit, str-IsDigit, IsDigit-Lacks, parse_int-str, parse_ports-str, str-ne-nil,
}

-- the six fields of a token
abbrev fields : Text → ℕ → List ℕ → List Text → Text → List Text
fields cn exp ports hosts sig =
    codes "v1"
    ∷ cn
    ∷ str exp
    ∷ join b',' (map str (scope_ports ports))
    ∷ join b',' (scope_hosts hosts)
    ∷ sig
    ∷ []

join-message :
    (cn : Text) (exp : ℕ) (ports : List ℕ) (hosts : List Text)
    → join b'|' (
        codes "v1"
        ∷ cn
        ∷ str exp
        ∷ join b',' (map str (scope_ports ports))
        ∷ join b',' (scope_hosts hosts)
        ∷ [])
      ≡ message cn exp ports hosts
unfolding join message
join-message cn exp ports hosts = refl

join-fields :
    (cn : Text) (exp : ℕ) (ports : List ℕ) (hosts : List Text) (sig : Text)
    → join b'|' (fields cn exp ports hosts sig) ≡ message cn exp ports hosts ++ (b'|' ∷ sig)
unfolding join message
join-fields cn exp ports hosts sig = simp append_assoc

-- a host as `sign` writes it
abbrev Host : Text → Type 0
Host h = (h ≢ []) × (lower h ≡ h) × Lacks b',' h × Lacks b'|' h

-- a text that may be given as a host: no separator of the token stands in it
abbrev pub Plain : Text → Type 0
Plain h = Lacks b',' h × Lacks b'|' h

lower-Lacks : (c : ℕ) (s : Text) → (c < 65) ⊎ (122 < c) → Lacks c s → Lacks c (lower s)
lower-Lacks c [] small h = tt
lower-Lacks c (d ∷ s) small (hd, h) = (ground arith, lower-Lacks c s small h)

lower-ne-nil : (s : Text) → is_nonempty s ≡ true → lower s ≢ []
lower-ne-nil [] h e = cc
lower-ne-nil (c ∷ s) h e = cc

listed-Host :
    (hosts : List Text)
    → All Plain hosts
    → All Host (map (λ h. lower (strip h)) (select (λ h. is_nonempty (strip h)) hosts))
listed-Host [] k = tt
listed-Host (h ∷ hosts) ((no_comma, no_bar), k) = elim (Bool-cases (is_nonempty (strip h))) [
  | inl e ↦ rw e (
    (
      lower-ne-nil (strip h) e,
      lower-lower (strip h),
      lower-Lacks b',' (strip h) (inl (omega arith)) (strip-All (λ d. d ≢ b',') h no_comma),
      lower-Lacks b'|' (strip h) (inr (omega arith)) (strip-All (λ d. d ≢ b'|') h no_bar),
    ),
    listed-Host hosts k,
  )
  | inr e ↦ rw e (listed-Host hosts k)
]

scope_hosts-Host : (hosts : List Text) → All Plain hosts → All Host (scope_hosts hosts)
scope_hosts-Host hosts k = sorted_set-All text_ltb Host _ (listed-Host hosts k)

All-map-str : (c : ℕ) (ns : List ℕ) → ¬ IsDigit c → All (Lacks c) (map str ns)
All-map-str c [] k = tt
All-map-str c (n ∷ ns) k = (IsDigit-Lacks c (str n) k (str-IsDigit n), All-map-str c ns k)

All-Host :
    (P : Text → Type 0) (hs : List Text) → ((h : Text) → Host h → P h) → All Host hs → All P hs
All-Host P [] f k = tt
All-Host P (h ∷ hs) f (kh, k) = (f h kh, All-Host P hs f k)

join-ne-nil : (sep : ℕ) (p : Text) (ps : List Text) → p ≢ [] → join sep (p ∷ ps) ≢ []
unfolding join
join-ne-nil sep [] ps h e = h refl
join-ne-nil sep (c ∷ p) [] h e = cc
join-ne-nil sep (c ∷ p) (q ∷ ps) h e = cc

ports_field-split : (s : Text) → s ≢ [] → ports_field s ≡ parse_ports (split b',' s)
unfolding ports_field
ports_field-split [] h = absurd (h refl)
ports_field-split (c ∷ s) h = refl

hosts_field-split : (s : Text) → s ≢ [] → hosts_field s ≡ map lower (split b',' s)
unfolding hosts_field
hosts_field-split [] h = absurd (h refl)
hosts_field-split (c ∷ s) h = refl

ports_field-join :
    (ns : List ℕ) → All (λ n. n ≤ max_int64) ns → ports_field (join b',' (map str ns)) ≡ ns
ports_field-join [] k = unfold ports_field join in refl
ports_field-join (n ∷ ns) k =
    ports_field-split _ (join-ne-nil b',' (str n) (map str ns) (str-ne-nil n))
    ∙ ap parse_ports
        (split-join b',' (str n) (map str ns) (All-map-str b',' (n ∷ ns) (λ d. omega arith)))
    ∙ parse_ports-str (n ∷ ns) k

map-lower : (hs : List Text) → All Host hs → map lower hs ≡ hs
map-lower [] k = refl
map-lower (h ∷ hs) (kh, k) = rw (kh.1, map-lower hs k) refl

hosts_field-join : (hs : List Text) → All Host hs → hosts_field (join b',' hs) ≡ hs
hosts_field-join [] k = unfold hosts_field join in refl
hosts_field-join (h ∷ hs) k =
    hosts_field-split _ (join-ne-nil b',' h hs k.0.0)
    ∙ ap (map lower) (split-join b',' h hs (All-Host (Lacks b',') (h ∷ hs) (λ x hx. hx.2) k))
    ∙ map-lower (h ∷ hs) k

fields-Lacks :
    (cn : Text) (exp : ℕ) (ports : List ℕ) (hosts : List Text) (sig : Text)
    → Lacks b'|' cn
    → Lacks b'|' sig
    → All Plain hosts
    → All (Lacks b'|') (fields cn exp ports hosts sig)
fields-Lacks cn exp ports hosts sig hcn hsig k = (
  omega arith,
  (
    hcn,
    (
      IsDigit-Lacks b'|' (str exp) (λ d. omega arith) (str-IsDigit exp),
      (
        join-All (λ d. d ≢ b'|') b',' (map str (scope_ports ports)) (omega arith)
            (All-map-str b'|' (scope_ports ports) (λ d. omega arith)),
        (
          join-All (λ d. d ≢ b'|') b',' (scope_hosts hosts) (omega arith)
              (All-Host (Lacks b'|') (scope_hosts hosts) (λ x hx. hx.3) (scope_hosts-Host hosts k)),
          (hsig, tt),
        ),
      ),
    ),
  ),
)

-- the scope that the engine reads out of a token
abbrev pub scope : Text → List ℕ → List Text → Grant
scope cn ports hosts = record { cn = cn; ports = scope_ports ports; hosts = scope_hosts hosts }

module _ (hmac : Text → Text → Text) (printable : (key msg : Text) → Lacks b'|' (hmac key msg))
    (secret cn : Text) (ports : List ℕ) (hosts : List Text) (now ttl : ℕ) (cn_plain : Lacks b'|' cn)
    (ports_fit : All (λ n. n ≤ max_int64) ports) (hosts_plain : All Plain hosts)
    (exp_fits : now + ttl ≤ max_int64) where
  token_fields :
      split b'|' (sign hmac secret cn ports hosts now ttl)
      ≡ fields cn (now + ttl) ports hosts (hmac secret (message cn (now + ttl) ports hosts))
  unfolding sign
  token_fields =
      let sig = hmac secret (message cn (now + ttl) ports hosts) in
      rw (← join-fields cn (now + ttl) ports hosts sig) (
        split-join b'|' (codes "v1") _ (
          fields-Lacks cn (now + ttl) ports hosts sig cn_plain
            (printable secret (message cn (now + ttl) ports hosts)) hosts_plain))

  -- What the engine makes of a token that the panel signed: another name than the signed one is
  -- refused, a time after the expiry is refused, and otherwise the scope is the one that was
  -- signed. The printed hash has no `|`, nor has the name, the hosts have neither `,` nor `|`, and
  -- the ports and the expiry fit 64 bits.
  pub verify-sign :
      (name : Text) (later : ℕ)
      → verify hmac secret (sign hmac secret cn ports hosts now ttl) name later ≡ (
          if text_eq cn name
          then (if ltb (now + ttl) later then refused expired else granted (scope cn ports hosts))
          else refused cn_mismatch)
  unfolding verify check_parts
  verify-sign name later =
      rw (token_fields, check_parts)
        (rw
          (
            join-message cn (now + ttl) ports hosts,
            text_eq_refl (hmac secret (message cn (now + ttl) ports hosts)),
            parse_int-str (now + ttl) exp_fits,
            ports_field-join (scope_ports ports)
                (sorted_set-All ltb (λ n. n ≤ max_int64) ports ports_fit),
            hosts_field-join (scope_hosts hosts) (scope_hosts-Host hosts hosts_plain),
          )
          (ground arith))

-- With the scope of a grant the engine allows a port exactly if it is one of the signed ports.
pub allow_port-scope :
    (cn : Text) (ports : List ℕ) (hosts : List Text) (p : ℕ)
    → allow_port (scope cn ports hosts) p ≡ member p ports
unfolding allow_port
allow_port-scope cn ports hosts p = any-sorted_set ltb ◌==◌ ltb-same p ports

-- With the scope of a grant the engine allows a host, up to its case, exactly if it is one of the
-- signed hosts that are not blank, stripped and in lower case.
pub allow_host-scope :
    (cn : Text) (ports : List ℕ) (hosts : List Text) (h : Text)
    → allow_host (scope cn ports hosts) h
      ≡ text_member
          (lower h)
          (map (λ x. lower (strip x)) (select (λ x. is_nonempty (strip x)) hosts))
unfolding allow_host
allow_host-scope cn ports hosts h =
    any-sorted_set text_ltb text_eq (λ z x y a b. ap (text_eq z) (text_ltb-same x y a b)) (lower h)
      _
