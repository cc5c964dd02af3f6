-- ===== src/Examples/Link.antt =====
-- The agent's connection and certificate, and the offers of upgrades.
use rc_tunnel.Base.{
  ℕ, ◌+◌, ◌*◌, ◌≤◌, ◌≡◌, refl, true, false, Bool, none, some, Option, List, [], ◌∷◌, ◌++◌, codes,
  Text, arith, length, All, inl, inr, ◌⊎◌, map, pos,
}
use rc_tunnel.Base.Dict.{text_key}
use rc_tunnel.Versions.{Upgrade, Manifest, maybe_upgrade, version_leb, vtuple}
use rc_tunnel.Settings.{default_settings}
use rc_tunnel.Supervisor.Offers.{maybe_upgrade-settles}
use rc_tunnel.Supervisor.Link.{Certs}
use rc_tunnel.Supervisor.Renewals.{Asking, checks, answers, renewals, Matched, renewals-Matched}

-- a certificate is named as its key
abbrev named : Text → Text
named key = key

abbrev certs : Certs
certs = record {
  key = some (codes "k1");
  crt = some (codes "k1");
  ca = some (codes "ca");
  renew_key = none;
}

abbrev asking : Asking
asking = record { certs = certs; asked = [] }

renewals-Matched_example :
    Matched named
      (renewals named (checks (some (pos 9)) (codes "k2") ∷ answers (codes "k2") none ∷ []) asking)
renewals-Matched_example =
    renewals-Matched named (checks (some (pos 9)) (codes "k2") ∷ answers (codes "k2") none ∷ [])
      asking (λ k e. e, tt)

abbrev published : Manifest
published = record { agent_version = some (codes "0.10.0"); files = none; sha256 = [] }

abbrev offer : Upgrade
offer = record {
  version = codes "0.10.0";
  base_url = codes "https://rc-tunnel.com/dl";
  files = codes "rctunnel_agent.py" ∷ codes "localip.py" ∷ [];
  sha256 = [];
}

offered_here : maybe_upgrade default_settings published (some (codes "0.9.0")) ≡ some offer
unfolding maybe_upgrade rc_tunnel.Versions.version_ltb vtuple rc_tunnel.Versions.ints_of
    rc_tunnel.Base.split rc_tunnel.Versions.int_of
offered_here = refl

maybe_upgrade-settles_example :
    (version_leb (vtuple (codes "0.10.0")) (vtuple (codes "0.9.0")) ≡ false)
    × (maybe_upgrade default_settings published (some (codes "0.10.0")) ≡ none)
maybe_upgrade-settles_example =
    maybe_upgrade-settles default_settings published (some (codes "0.9.0")) offer offered_here
