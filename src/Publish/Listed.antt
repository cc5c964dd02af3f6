-- ===== src/Publish/Listed.antt =====
-- rctunnel-panel/scripts/publish.py, control/server.py and agent/rctunnel_agent.py: what the manifest
-- says of the files that are published.
use rc_tunnel.Base.{
  ℕ, ◌≡◌, refl, ap, ◌∙◌, sym, subst, true, false, Option, none, some, List, [], ◌∷◌, map, select,
  arith, Text, codes, text_eq, text_eq→eq, text_eq_refl, text_eq_sym, text_member, truthy,
  Bool-cases, Option-cases, inl, inr, if◌then◌else◌,
}
use rc_tunnel.Base.Dict.{get, put, get-put_same, get-put_other, text_key}
use rc_tunnel.Base.Sorted.{sorted_set, text_ltb, text_ltb-same, any-sorted_set}
use rc_tunnel.Supervisor.Ota.{
  Files, Host, fetch_retry, is_safe_artifact, accepts, stage_one, stage, install, install_one,
  self_upgrade, agent_version,
}
use rc_tunnel.Publish.{
  version_in, version_here, is_artifact, hash_each, artifact_hashes, quoted, equal_sign, after,
}

module _ (sha256 : Text → Text) where
  get-hash_each :
      (dest : Files) (n bytes : Text) (names : List Text) (hashes : Files)
      → get n dest ≡ some bytes
      → get n (hash_each sha256 dest names hashes)
        ≡ (if text_member n names then some (sha256 bytes) else get n hashes)
  unfolding hash_each
  get-hash_each dest n bytes [] hashes h = refl
  get-hash_each dest n bytes (m ∷ names) hashes h = elim (Bool-cases (text_eq n m)) [
    | inl hit ↦
        let same : n ≡ m = text_eq→eq n m hit in
        let here : get m dest ≡ some bytes = rw (← same) h in
        rw here (
          get-hash_each dest n bytes names (put m (sha256 bytes) hashes) h
          ∙ rw (← same) (rw (text_eq_refl n, get-put_same n (sha256 bytes) hashes) (ground arith)))
    | inr miss ↦ rw miss (elim (Option-cases (get m dest)) [
      | inl e ↦ rw e (get-hash_each dest n bytes names hashes h)
      | inr (other, e) ↦ rw e (
          get-hash_each dest n bytes names (put m (sha256 other) hashes) h
          ∙ rw (get-put_other m n (sha256 other) hashes (text_eq_sym m n ∙ miss)) refl)
    ])
  ]

member-select :
    (n : Text) (names : List Text)
    → is_artifact n ≡ true
    → text_member n (select is_artifact names) ≡ text_member n names
member-select n [] h = refl
member-select n (m ∷ names) h = elim (Bool-cases (text_eq n m)) [
  | inl hit ↦
      let same : n ≡ m = text_eq→eq n m hit in
      let kept : is_artifact m ≡ true = rw (← same) h in rw kept (rw hit refl)
  | inr miss ↦ elim (Bool-cases (is_artifact m)) [
    | inl kept ↦ rw kept (rw miss (member-select n names h))
    | inr dropped ↦ rw dropped (rw miss (member-select n names h))
  ]
]

get-member :
    (n bytes : Text) (dest : Files)
    → get n dest ≡ some bytes
    → text_member n (map (λ f. f.0) dest) ≡ true
unfolding get
get-member n bytes [] h = absurd (cc)
get-member n bytes ((k, v) ∷ dest) h = elim (Bool-cases (text_eq k n)) [
  | inl hit ↦ rw (text_eq_sym n k, hit) refl
  | inr miss ↦ rw (text_eq_sym n k, miss) (get-member n bytes dest (ground arith))
]

same_text : (z x y : Text) → text_ltb x y ≡ false → text_ltb y x ≡ false → text_eq z x ≡ text_eq z y
same_text z x y h k = ap (text_eq z) (text_ltb-same x y h k)

-- The manifest has the hash of every file that is served.
pub get-artifact_hashes :
    (sha256 : Text → Text) (n bytes : Text) (dest : Files)
    → is_artifact n ≡ true
    → get n dest ≡ some bytes
    → get n (artifact_hashes sha256 dest) ≡ some (sha256 bytes)
unfolding artifact_hashes
get-artifact_hashes sha256 n bytes dest kept h =
    let listed : text_member n (select is_artifact (sorted_set text_ltb (map (λ f. f.0) dest)))
        ≡ true =
      member-select n (sorted_set text_ltb (map (λ f. f.0) dest)) kept
      ∙ any-sorted_set text_ltb text_eq same_text n (map (λ f. f.0) dest)
      ∙ get-member n bytes dest h in
    get-hash_each sha256 dest n bytes
      (select is_artifact (sorted_set text_ltb (map (λ f. f.0) dest))) [] h
    ∙ rw listed refl

quoted-truthy : (s : Option Text) (v : Text) → quoted s ≡ some v → truthy (some v) ≡ true
quoted-truthy none v h = cc
quoted-truthy (some s) v h = ground arith

version_here-truthy : (s v : Text) → version_here s ≡ some v → truthy (some v) ≡ true
unfolding version_here
version_here-truthy s v h = quoted-truthy (equal_sign (after (codes "AGENT_VERSION") s)) v h

pub version_in-truthy : (s : Text) → truthy (some (version_in s)) ≡ true
unfolding version_in
version_in-truthy [] = refl
version_in-truthy (c ∷ s) = elim (Option-cases (version_here (c ∷ s))) [
  | inl e ↦
      let step : version_in (c ∷ s) ≡ version_in s = ground arith in
      subst (λ v. truthy (some v) ≡ true) (sym step) (version_in-truthy s)
  | inr (v, e) ↦
      let step : version_in (c ∷ s) ≡ v = ground arith in
      subst (λ w. truthy (some w) ≡ true) (sym step) (version_here-truthy (c ∷ s) v e)
]

pub fetch_retry-first :
    (answer : ℕ → Text → Option Text) (url bytes : Text)
    → answer 0 url ≡ some bytes
    → truthy (some bytes) ≡ true
    → fetch_retry answer url ≡ some bytes
unfolding fetch_retry rc_tunnel.Supervisor.Ota.fetch_from
fetch_retry-first answer url [] h nonempty = cc
fetch_retry-first answer url (c ∷ bytes) h nonempty = ground arith
