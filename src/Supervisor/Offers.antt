-- ===== src/Supervisor/Offers.antt =====
-- rctunnel-panel/rctunnel_panel/control/server.py and agent/rctunnel_agent.py: the offer of an
-- upgrade, and whether the agent takes it.
use rc_tunnel.Base.{
  ◌≡◌, ap, ◌∙◌, true, false, not, ◌&&◌, Option, none, some, Text, truthy, Bool-cases, Option-cases,
  inl, inr, arith,
}
use rc_tunnel.Settings.{Settings}
use rc_tunnel.Versions.{
  Manifest, Upgrade, maybe_upgrade, vtuple, version_ltb, version_leb, or_zero_text,
}
use rc_tunnel.Versions.Order.{version_ltb_irrefl, version_leb-version_ltb}

module _ (s : Settings) (m : Manifest) where
  -- an offer is of the manifest's version, which is above that of the agent
  offered :
      (hello : Option Text) (msg : Upgrade)
      → maybe_upgrade s m hello ≡ some msg
      → (m.agent_version ≡ some msg.version)
        × (version_ltb (vtuple (or_zero_text hello)) (vtuple msg.version) ≡ true)
  unfolding maybe_upgrade rc_tunnel.Versions.upgrade_payload
  offered hello msg h = elim (Option-cases m.agent_version) [
    | inl e ↦ absurd (ground arith)
    | inr (target, e) ↦
        elim (Bool-cases
          (truthy (some target) && version_ltb (vtuple (or_zero_text hello)) (vtuple target))) [
            | inr f ↦ absurd (ground arith)
            | inl f ↦
                let same : target ≡ msg.version = ground arith in
                (e ∙ ap some same, rw (← same) (ground arith))
          ]
  ]

  -- Upgrades come to an end: when the panel offers an agent a version, the agent does not take it
  -- for one that it has already, and an agent that says hello with the offered version is offered
  -- nothing, as long as the manifest stays.
  pub maybe_upgrade-settles :
      (hello : Option Text) (msg : Upgrade)
      → maybe_upgrade s m hello ≡ some msg
      → (version_leb (vtuple msg.version) (vtuple (or_zero_text hello)) ≡ false)
        × (maybe_upgrade s m (some msg.version) ≡ none)
  unfolding maybe_upgrade
  maybe_upgrade-settles hello msg h =
      let (target, above) = offered hello msg h in
      (
        version_leb-version_ltb (vtuple msg.version) (vtuple (or_zero_text hello)) ∙ ap not above,
        rw target (rw (version_ltb_irrefl (vtuple msg.version)) (ground arith)),
      )
