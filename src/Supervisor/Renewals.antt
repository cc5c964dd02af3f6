-- ===== src/Supervisor/Renewals.antt =====
-- rctunnel-panel/agent/rctunnel_agent.py: the renewals of an agent's certificate over the control
-- connection. The panel signs the keys that it is asked to sign, whenever it comes to it.
use rc_tunnel.Base.{
  ◌≡◌, refl, ap, sym, true, false, ◌||◌, Option, none, some, List, [], ◌∷◌, All, All-weaken,
  text_member, text_eq, text_eq→eq, Bool-cases, inl, inr, arith, Text, if◌then◌else◌, ℤ, truthy,
}
use rc_tunnel.Supervisor.Link.{Certs, maybe_request_renew, install_renewed, stands, is_far}

-- a process of the agent: its certificates, and the keys that it asked to have signed
pub record Asking : Type 0 where
  pub certs : Certs
  pub asked : List Text

-- the check of a session or of its loop, with the days left and a new key; the answer to one of the
-- requests; and an answer that is lost with its connection
pub data Renewal : Type 0 where
  checks : Option ℤ → Text → Renewal
  answers : Text → Option Text → Renewal
  drops : Renewal

module _ (cert_for : Text → Text) where
  unfoldable pub renewal : Renewal → Asking → Asking
  renewal (checks left new_key) a =
      let (certs, sent) = maybe_request_renew left new_key a.certs in
      record { certs = certs; asked = if sent then new_key ∷ a.asked else a.asked }
  renewal (answers key ca) a =
      if text_member key a.asked
      then record {
        certs =
            (install_renewed (record { agent_cert_pem = cert_for key; ca_cert_pem = ca })
              a.certs).0;
        asked = [];
      }
      else a
  renewal drops a = record a { asked = [] }

  unfoldable pub renewals : List Renewal → Asking → Asking
  unfolding renewal
  renewals [] a = a
  renewals (r ∷ rs) a = renewals rs (renewal r a)

  -- the certificate is one for the key, and the requests are for the key that is staged
  abbrev pub Matched : Asking → Type 0
  Matched a =
      ((k : Text) → a.certs.key ≡ some k → a.certs.crt ≡ some (cert_for k))
      × All (λ k. a.certs.renew_key ≡ some k) a.asked

  member-All :
      (P : Text → Type 0) (k : Text) (ks : List Text) → text_member k ks ≡ true → All P ks → P k
  member-All P k [] m h = absurd (cc)
  member-All P k (j ∷ ks) m (pj, h) = elim (Bool-cases (text_eq k j)) [
    | inl e ↦ let same : j ≡ k = sym (text_eq→eq k j e) in rw same at pj
    | inr e ↦ member-All P k ks (ground arith) h
  ]

  stands→none : (o : Option Text) → stands o ≡ false → o ≡ none
  stands→none none h = refl
  stands→none (some s) h = absurd (cc)

  checks-Matched :
      (left : Option ℤ) (new_key : Text) (a : Asking)
      → Matched a
      → Matched (renewal (checks left new_key) a)
  unfolding renewal maybe_request_renew
  checks-Matched left new_key a (pair, all) =
      elim (Bool-cases (is_far left || stands a.certs.renew_key)) [
        | inl e ↦ rw e (pair, all)
        | inr e ↦
            let empty : a.certs.renew_key ≡ none = stands→none a.certs.renew_key (ground arith) in
            rw e (pair, (refl, All-weaken _ _ a.asked (λ k h. absurd (cc)) all))
      ]

  installed-pair :
      (key : Text) (ca : Option Text) (c : Certs)
      → ((k : Text) → c.key ≡ some k → c.crt ≡ some (cert_for k))
      → c.renew_key ≡ some key
      → let now =
          (install_renewed (record { agent_cert_pem = cert_for key; ca_cert_pem = ca }) c).0 in
        (k : Text) → now.key ≡ some k → now.crt ≡ some (cert_for k)
  unfolding install_renewed
  installed-pair key ca c pair staged k = elim (Bool-cases (truthy c.renew_key)) [
    | inr e ↦ rw e (pair k)
    | inl e ↦ rw e (λ h. let same : key ≡ k = cc in ap (λ j. some (cert_for j)) same)
  ]

  renewal-Matched : (r : Renewal) (a : Asking) → Matched a → Matched (renewal r a)
  unfolding renewal
  renewal-Matched drops a (pair, all) = (pair, tt)
  renewal-Matched (checks left new_key) a m = checks-Matched left new_key a m
  renewal-Matched (answers key ca) a (pair, all) = elim (Bool-cases (text_member key a.asked)) [
    | inr e ↦ rw (renewal, e) (pair, all)
    | inl e ↦
        rw (renewal, e) (installed-pair key ca a.certs pair (member-All _ key a.asked e all), tt)
  ]

  -- If an agent's certificate is one for its key, and each request it has open is for the key that
  -- it has staged, this still holds after any number of checks for a renewal, answers to open
  -- requests in any order, and lost connections.
  pub renewals-Matched : (rs : List Renewal) (a : Asking) → Matched a → Matched (renewals rs a)
  unfolding renewals
  renewals-Matched [] a m = m
  renewals-Matched (r ∷ rs) a m = renewals-Matched rs (renewal r a) (renewal-Matched r a m)
