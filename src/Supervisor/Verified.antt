-- ===== src/Supervisor/Verified.antt =====
-- rctunnel-panel/agent/rctunnel_agent.py: what `_self_upgrade` leaves in the install directory.
use rc_tunnel.Base.{
  ◌≡◌, refl, ap, sym, ◌∙◌, ◌⊎◌, inl, inr, Bool, true, false, ◌||◌, Option, none, some, List, [],
  ◌∷◌, ◌++◌, All, Bool-cases, Option-cases, arith, Text, codes, text_eq, text_eq→eq, ends_with,
}
use rc_tunnel.Base.Dict.{get, put, put-All, text_key}
use rc_tunnel.Versions.{Upgrade, vtuple, version_leb, files_or}
use rc_tunnel.Supervisor.Names.{IsPlain, IsLasting}
use rc_tunnel.Supervisor.Backups.{get-install_one}
use rc_tunnel.Supervisor.Ota.{
  Files, Copies, is_safe_artifact, trusted, accepts, stage_one, stage, install_one, install, Host,
  self_upgrade, agent_version,
}

pub trusted-some : (o : Option Text) (want : Text) → trusted o ≡ some want → o ≡ some want
trusted-some none want h = cc
trusted-some (some []) want h = cc
trusted-some (some (c ∷ s)) want h = h

module _ (fetch : Text → Option Text) (sha256 : Text → Text) (compiles : Text → Bool) where
  -- a name and bytes that passed every check of the loop
  abbrev pub Vetted : Files → Text × Text → Type 0
  Vetted hashes (f, bytes) =
      (is_safe_artifact f ≡ true)
      × (get f hashes ≡ some (sha256 bytes))
      × (ends_with (codes ".py") f ≡ true → compiles bytes ≡ true)

  accepts-sha256 :
      (f want bytes : Text)
      → accepts fetch sha256 compiles f want bytes ≡ true
      → sha256 bytes ≡ want
  unfolding accepts
  accepts-sha256 f want bytes h = text_eq→eq (sha256 bytes) want (ground arith)

  accepts-compiles :
      (f want bytes : Text)
      → accepts fetch sha256 compiles f want bytes ≡ true
      → ends_with (codes ".py") f ≡ true
      → compiles bytes ≡ true
  unfolding accepts
  accepts-compiles f want bytes h py = ground arith

  stage_one-Vetted :
      (base : Text) (hashes : Files) (f bytes : Text)
      → stage_one fetch sha256 compiles base hashes f ≡ some bytes
      → Vetted hashes (f, bytes)
  stage_one-Vetted base hashes f bytes h = elim (Option-cases (trusted (get f hashes))) [
    | inl e ↦ absurd (unfold stage_one in ground arith)
    | inr (want, e) ↦
        let checks : (is_safe_artifact f ≡ true)
            × (accepts fetch sha256 compiles f want bytes ≡ true) =
          unfold stage_one in ground arith in
        (
          checks.0,
          trusted-some (get f hashes) want e ∙ ap some (sym (accepts-sha256 f want bytes checks.1)),
          accepts-compiles f want bytes checks.1,
        )
  ]

  -- what each round keeps, the loop keeps
  pub stage-keeps :
      (P : Files → Type 0) (base : Text) (hashes : Files) (fs : List Text) (staged out : Files)
      → ((f bytes : Text) (staged : Files)
          → stage_one fetch sha256 compiles base hashes f ≡ some bytes
          → P staged
          → P (put f bytes staged))
      → P staged
      → stage fetch sha256 compiles base hashes fs staged ≡ some out
      → P out
  unfolding stage
  stage-keeps P base hashes [] staged out keep h e = let same : staged ≡ out = cc in rw same at h
  stage-keeps P base hashes (f ∷ fs) staged out keep h e =
      elim (Option-cases (stage_one fetch sha256 compiles base hashes f)) [
        | inl failed ↦ absurd (ground arith)
        | inr (bytes, got) ↦
            stage-keeps P base hashes fs (put f bytes staged) out keep (keep f bytes staged got h)
              (ground arith)
      ]

  -- `n` has what it had, or bytes that passed the checks
  abbrev pub Kept : Files → Text → Files → Files → Type 0
  Kept hashes n before after =
      (get n after ≡ get n before)
      ⊎ ((bytes : Text) × (get n after ≡ some bytes) × Vetted hashes (n, bytes))

  install-Kept :
      (copies : Copies) (hashes : Files) (n : Text) (staged files : Files)
      → IsPlain n
      → IsLasting n
      → All (Vetted hashes) staged
      → Kept hashes n files (install copies staged files)
  unfolding install
  install-Kept copies hashes n [] files h l v = inl refl
  install-Kept copies hashes n ((f, bytes) ∷ staged) files h l (vf, v) =
      elim (install-Kept copies hashes n staged (install_one copies f bytes files) h l v) [
        | inr vetted ↦ inr vetted
        | inl same ↦ elim (Bool-cases (text_eq f n)) [
          | inr e ↦ inl (same ∙ get-install_one copies f bytes n files h l ∙ rw e refl)
          | inl e ↦
              let here : f ≡ n = text_eq→eq f n e in
              inr (
                bytes,
                same ∙ get-install_one copies f bytes n files h l ∙ rw e refl,
                rw here at vf,
              )
        ]
      ]

  -- After an upgrade message, whatever it says, and whatever becomes of the copies to backups, a
  -- file of the install directory whose name ends neither in `.bak` nor in `.new` is either what
  -- it was, or was downloaded with the hash that the message gives for its name, which is a plain
  -- file name, and compiles if it is a `.py` file. The new files can be written and moved.
  pub self_upgrade-Kept :
      (master_url n : Text) (msg : Upgrade) (h : Host)
      → IsPlain n
      → IsLasting n
      → Kept msg.sha256 n h.files (self_upgrade fetch sha256 compiles master_url msg h).0.files
  unfolding self_upgrade get is_safe_artifact
  self_upgrade-Kept master_url n msg h plain lasting =
      elim (Bool-cases (h.upgraded || version_leb (vtuple msg.version) (vtuple agent_version))) [
        | inl e ↦ rw (self_upgrade, e) (inl refl)
        | inr e ↦
            let base = master_url ++ codes "/dl" in
            let names = files_or (some msg.files) in
            elim (Option-cases (stage fetch sha256 compiles base msg.sha256 names [])) [
              | inl f ↦ rw (self_upgrade, e, f) (inl refl)
              | inr (staged, f) ↦
                  rw (self_upgrade, e, f)
                    (install-Kept h.copies msg.sha256 n staged h.files plain lasting (
                      stage-keeps (All (Vetted msg.sha256)) base msg.sha256 names [] staged
                        (λ g bytes done got v.
                          put-All (Vetted msg.sha256) g bytes done
                            (stage_one-Vetted base msg.sha256 g bytes got) v)
                        tt f))
            ]
      ]

  -- An upgrade after which the agent does not restart changes nothing.
  pub self_upgrade-aborted :
      (master_url : Text) (msg : Upgrade) (h : Host)
      → (self_upgrade fetch sha256 compiles master_url msg h).1 ≡ false
      → (self_upgrade fetch sha256 compiles master_url msg h).0 ≡ h
  unfolding self_upgrade
  self_upgrade-aborted master_url msg h stays = ground arith
