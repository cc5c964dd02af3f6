-- ===== src/Publish/Upgraded.antt =====
-- rctunnel-panel/scripts/publish.py, control/server.py and agent/rctunnel_agent.py: what is published
-- reaches the agents.
use rc_tunnel.Base.{
  ℕ, zero, suc, ◌+◌, ◌≡◌, refl, ap, ◌∙◌, sym, subst, Bool, true, false, not, ◌&&◌, ◌||◌, Option,
  none, some, List, [], ◌∷◌, ◌++◌, All, arith, Text, codes, text_eq, text_eq_refl, truthy,
  ends_with, rstrip, ◌==◌, Bool-cases, Option-cases, inl, inr, if◌then◌else◌,
}
use rc_tunnel.Base.Dict.{get, put, get-put_same, get-put_other, text_key}
use rc_tunnel.Settings.{Settings}
use rc_tunnel.Versions.{
  Manifest, Upgrade, default_files, files_or, maybe_upgrade, upgrade_payload, vtuple, version_ltb,
  version_leb,
}
use rc_tunnel.Supervisor.Offers.{maybe_upgrade-settles}
use rc_tunnel.Supervisor.Ota.{
  Files, Host, fetch_retry, is_safe_artifact, trusted, accepts, stage_one, stage, install,
  install_one, self_upgrade, agent_version,
}
use rc_tunnel.Supervisor.Backups.{get-install_one}
use rc_tunnel.Publish.{Repo, copied, version_in, publish}
use rc_tunnel.Publish.Listed.{get-artifact_hashes, version_in-truthy, fetch_retry-first}

abbrev pub agent_name : Text
agent_name = codes "rctunnel_agent.py"

abbrev pub localip_name : Text
localip_name = codes "localip.py"

get-copied :
    (repo : Repo) (dest : Files)
    → (get agent_name (copied repo dest) ≡ some repo.agent)
      × (get localip_name (copied repo dest) ≡ some repo.localip)
unfolding copied
get-copied repo dest =
    let first = put agent_name repo.agent dest in
    let second = put localip_name repo.localip first in
    (
      get-put_other (codes "install.sh") agent_name repo.installer second refl
          ∙ get-put_other localip_name agent_name repo.localip first refl
          ∙ get-put_same agent_name repo.agent dest,
      get-put_other (codes "install.sh") localip_name repo.installer second refl
          ∙ get-put_same localip_name repo.localip first,
    )

trusted-truthy : (want : Text) → truthy (some want) ≡ true → trusted (some want) ≡ some want
trusted-truthy [] h = cc
trusted-truthy (c ∷ want) h = refl

offer_of :
    (s : Settings) (m : Manifest) (target : Text)
    → m.agent_version ≡ some target
    → truthy (some target) ≡ true
    → version_ltb (vtuple agent_version) (vtuple target) ≡ true
    → maybe_upgrade s m (some agent_version)
      ≡ some (
          upgrade_payload target
            (rstrip (λ c. c == b'/') s.public_base_url ++ codes "/dl")
            m.files
            m.sha256)
unfolding maybe_upgrade
offer_of s m target e real newer = rw (e, real, newer) refl

module _ (answer : ℕ → Text → Option Text) (sha256 : Text → Text) (compiles : Text → Bool)
    (master_url : Text) where
  -- a file that is served with the hash that is asked for, and compiles
  served :
      (hashes : Files) (f bytes : Text)
      → is_safe_artifact f ≡ true
      → answer 0 ((master_url ++ codes "/dl") ++ (b'/' ∷ f)) ≡ some bytes
      → get f hashes ≡ some (sha256 bytes)
      → truthy (some (sha256 bytes)) ≡ true
      → truthy (some bytes) ≡ true
      → compiles bytes ≡ true
      → stage_one (fetch_retry answer) sha256 compiles (master_url ++ codes "/dl") hashes f
        ≡ some bytes
  served hashes f bytes safe there listed hash nonempty good =
      let got =
        fetch_retry-first answer ((master_url ++ codes "/dl") ++ (b'/' ∷ f)) bytes there nonempty in
      let want : trusted (get f hashes) ≡ some (sha256 bytes) =
        ap trusted listed ∙ trusted-truthy (sha256 bytes) hash in
      let fine : accepts (fetch_retry answer) sha256 compiles f (sha256 bytes) bytes ≡ true =
        unfold accepts in rw (text_eq_refl (sha256 bytes), good) (ground arith) in
      unfold stage_one in rw (safe, want, got, fine) refl

  stage-step :
      (hashes : Files) (f bytes : Text) (fs : List Text) (done : Files)
      → stage_one (fetch_retry answer) sha256 compiles (master_url ++ codes "/dl") hashes f
        ≡ some bytes
      → stage (fetch_retry answer) sha256 compiles (master_url ++ codes "/dl") hashes (f ∷ fs) done
        ≡ stage
            (fetch_retry answer)
            sha256
            compiles
            (master_url ++ codes "/dl")
            hashes
            fs
            (put f bytes done)
  unfolding stage
  stage-step hashes f bytes fs done e = ground arith

  -- what an upgrade to the two files installs
  module _ (hashes : Files) (agent localip : Text) (h : Host)
      (got : stage_one
          (fetch_retry answer)
          sha256
          compiles
          (master_url ++ codes "/dl")
          hashes
          agent_name
        ≡ some agent)
      (got' : stage_one
          (fetch_retry answer)
          sha256
          compiles
          (master_url ++ codes "/dl")
          hashes
          localip_name
        ≡ some localip) where
    abbrev staged : Files
    staged = (agent_name, agent) ∷ (localip_name, localip) ∷ []

    stage-both :
        stage
          (fetch_retry answer)
          sha256
          compiles
          (master_url ++ codes "/dl")
          hashes
          default_files
          []
        ≡ some staged
    unfolding stage put
    stage-both =
        stage-step hashes agent_name agent (localip_name ∷ []) [] got
        ∙ stage-step hashes localip_name localip [] ((agent_name, agent) ∷ []) got'

    get-install_both :
        (get agent_name (install h.copies staged h.files) ≡ some agent)
        × (get localip_name (install h.copies staged h.files) ≡ some localip)
    unfolding install
    get-install_both =
        let first = install_one h.copies agent_name agent h.files in
        (
          get-install_one h.copies localip_name localip agent_name first refl refl
              ∙ get-install_one h.copies agent_name agent agent_name h.files refl refl,
          get-install_one h.copies localip_name localip localip_name first refl refl,
        )

    upgraded_both :
        (msg : Upgrade)
        → h.upgraded ≡ false
        → version_leb (vtuple msg.version) (vtuple agent_version) ≡ false
        → msg.sha256 ≡ hashes
        → msg.files ≡ default_files
        → let (h', restarts) = self_upgrade (fetch_retry answer) sha256 compiles master_url msg h in
          (restarts ≡ true)
          × (get agent_name h'.files ≡ some agent)
          × (get localip_name h'.files ≡ some localip)
    upgraded_both msg idle newer same files =
        let now : stage (fetch_retry answer) sha256 compiles (master_url ++ codes "/dl") msg.sha256
              (files_or (some msg.files)) []
            ≡ some staged =
          rw (same, files) stage-both in
        unfold self_upgrade in rw (idle, newer, now) (refl, get-install_both.0, get-install_both.1)

  -- What is published reaches the agents: after a run of the script with an agent whose version is
  -- above that of a connected agent, the panel offers an upgrade, that agent takes it and
  -- restarts, its two files are then the published ones, and an agent of the published version is
  -- offered nothing. The agent did not upgrade before, the web server answers with the files of
  -- the directory, hashes are not empty, and the two files are not empty and compile.
  pub publish-self_upgrade :
      (s : Settings) (repo : Repo) (dest : Files) (h : Host)
      → let (out, manifest) = publish sha256 repo dest in
        version_ltb (vtuple agent_version) (vtuple (version_in repo.agent)) ≡ true
        → h.upgraded ≡ false
        → ((f bytes : Text)
            → get f out ≡ some bytes
            → answer 0 ((master_url ++ codes "/dl") ++ (b'/' ∷ f)) ≡ some bytes)
        → ((bytes : Text) → truthy (some (sha256 bytes)) ≡ true)
        → (truthy (some repo.agent) ≡ true) × (truthy (some repo.localip) ≡ true)
        → (compiles repo.agent ≡ true) × (compiles repo.localip ≡ true)
        → (msg : Upgrade) × (maybe_upgrade s manifest (some agent_version) ≡ some msg)
          × ((self_upgrade (fetch_retry answer) sha256 compiles master_url msg h).1 ≡ true)
          × (get agent_name
                (self_upgrade (fetch_retry answer) sha256 compiles master_url msg h).0.files
              ≡ some repo.agent)
          × (get localip_name
                (self_upgrade (fetch_retry answer) sha256 compiles master_url msg h).0.files
              ≡ some repo.localip)
          × (maybe_upgrade s manifest (some (version_in repo.agent)) ≡ none)
  unfolding is_safe_artifact publish copied rc_tunnel.Base.Sorted.sorted_set upgrade_payload
  publish-self_upgrade s repo dest h newer idle serves hash nonempty good =
      let (out, manifest) = publish sha256 repo dest in
      let msg =
        upgrade_payload (version_in repo.agent)
          (rstrip (λ c. c == b'/') s.public_base_url ++ codes "/dl") manifest.files
          manifest.sha256 in
      let offer : maybe_upgrade s manifest (some agent_version) ≡ some msg =
        offer_of s manifest (version_in repo.agent) refl (version_in-truthy repo.agent) newer in
      let (above, settled) = maybe_upgrade-settles s manifest (some agent_version) msg offer in
      let (here, here') = get-copied repo dest in
      let got =
        served manifest.sha256 agent_name repo.agent refl (serves agent_name repo.agent here)
          (get-artifact_hashes sha256 agent_name repo.agent out refl here) (hash repo.agent)
          nonempty.0 good.0 in
      let got' =
        served manifest.sha256 localip_name repo.localip refl
          (serves localip_name repo.localip here')
          (get-artifact_hashes sha256 localip_name repo.localip out refl here') (hash repo.localip)
          nonempty.1 good.1 in
      let (restarts, new, new') =
        upgraded_both manifest.sha256 repo.agent repo.localip h got got' msg idle above refl refl in
      (msg, offer, restarts, new, new', settled)
