-- ===== src/Supervisor/Undone.antt =====
-- rctunnel-panel/agent/rctunnel_agent.py: a rollback of `_boot_guard` after an upgrade of
-- `_self_upgrade`.
use rc_tunnel.Base.{
  ℕ, ◌≡◌, refl, ap, ◌∙◌, ◌⊎◌, Bool, true, ◌||◌, Option, none, some, List, [], ◌∷◌, ◌++◌, All, arith,
  Text, codes, text_eq, text_eq→eq, text_eq_refl, text_eq_sym, text_member, ends_with, Bool-cases,
  Option-cases, inl, inr,
}
use rc_tunnel.Base.Dict.{
  get, put, get-put_same, get-put_other, put-All, Distinct, put-Distinct, text_key,
}
use rc_tunnel.Versions.{Upgrade, vtuple, version_leb, files_or}
use rc_tunnel.Supervisor.Ota.{
  Files, Copies, Host, stage, stage_one, install, self_upgrade, agent_version,
}
use rc_tunnel.Supervisor.Verified.{stage-keeps}
use rc_tunnel.Supervisor.Boot.{restore, backups, is_bak, Install, Disk, boot_guard}
use rc_tunnel.Supervisor.Names.{bak_of, bak_of-ends_with, Single, IsPlain, IsLasting}
use rc_tunnel.Supervisor.Backups.{install-other, install-backup, install-Single}
use rc_tunnel.Supervisor.Restored.{restore-without, restore-stays}

backups-ends_with : (files : Files) → All (λ b. ends_with (codes ".bak") b ≡ true) (backups files)
unfolding backups
backups-ends_with [] = tt
backups-ends_with (f ∷ files) = elim (Bool-cases (is_bak f)) [
  | inl e ↦ rw e (e, backups-ends_with files)
  | inr e ↦ rw e (backups-ends_with files)
]

pub backups-member :
    (b bytes : Text) (files : Files)
    → ends_with (codes ".bak") b ≡ true
    → get b files ≡ some bytes
    → text_member b (backups files) ≡ true
unfolding backups get
backups-member b bytes [] bak h = absurd (cc)
backups-member b bytes ((k, v) ∷ files) bak h = elim (Bool-cases (text_eq k b)) [
  | inl hit ↦ let same : k ≡ b = text_eq→eq k b hit in rw same (rw bak (rw (text_eq_refl b) refl))
  | inr miss ↦
      let later : text_member b (backups files) ≡ true =
        backups-member b bytes files bak (ground arith) in
      elim (Bool-cases (is_bak (k, v))) [
        | inl e ↦ rw e (rw later (ground arith))
        | inr e ↦ rw e later
      ]
]

-- A rollback leaves a file that has no backup, and gives one that has a backup that back.
module _ (compiles : Text → Bool) (copies : Copies) (n old : Text) (plain : IsPlain n)
    (files : Files) (single : All (λ f. Single f.0) files) where
  pub rolled_back :
      (ends_with (codes ".py") n ≡ true → compiles old ≡ true)
      → copies n old ≡ some old
      → (get (bak_of n) files ≡ some old)
        ⊎ ((get (bak_of n) files ≡ none) × (get n files ≡ some old))
      → get n (restore compiles copies (backups files) files) ≡ some old
  rolled_back sound done (inl there) =
      restore-stays compiles copies n plain old sound done (backups files) files
        (backups-ends_with files) single there
        (inl (backups-member (bak_of n) old files (bak_of-ends_with n) there))
  rolled_back sound done (inr (gone, here)) =
      restore-without compiles copies n plain (backups files) files (backups-ends_with files) single
        gone
      ∙ here

boot_guard-files :
    (compiles : Text → Bool) (disk : Disk) (now : ℕ) (i : Install)
    → (boot_guard compiles disk now i).1 ≡ true
    → (boot_guard compiles disk now i).0.files
      ≡ restore compiles disk.copies (backups i.files) i.files
unfolding boot_guard
boot_guard-files compiles disk now i fires = ground arith

module _ (fetch : Text → Option Text) (sha256 : Text → Text) (compiles : Text → Bool) where
  stage-IsPlain :
      (base : Text) (hashes : Files) (fs : List Text) (staged out : Files)
      → All IsPlain fs
      → All (λ f. IsPlain f.0) staged
      → stage fetch sha256 compiles base hashes fs staged ≡ some out
      → All (λ f. IsPlain f.0) out
  unfolding stage
  stage-IsPlain base hashes [] staged out pl h e = let same : staged ≡ out = cc in rw same at h
  stage-IsPlain base hashes (f ∷ fs) staged out (pf, pl) h e =
      elim (Option-cases (stage_one fetch sha256 compiles base hashes f)) [
        | inl failed ↦ absurd (ground arith)
        | inr (bytes, got) ↦
            stage-IsPlain base hashes fs (put f bytes staged) out pl
              (put-All (λ g. IsPlain g.0) f bytes staged pf h) (ground arith)
      ]

  -- what is asked for is staged
  stage-member :
      (base : Text) (hashes : Files) (n : Text) (fs : List Text) (staged out : Files)
      → (text_member n fs ≡ true) ⊎ ((bytes : Text) × (get n staged ≡ some bytes))
      → stage fetch sha256 compiles base hashes fs staged ≡ some out
      → (bytes : Text) × (get n out ≡ some bytes)
  unfolding stage
  stage-member base hashes n [] staged out (inl h) e = absurd (cc)
  stage-member base hashes n [] staged out (inr (bytes, h)) e =
      (bytes, let same : staged ≡ out = cc in rw same at h)
  stage-member base hashes n (f ∷ fs) staged out h e =
      elim (Option-cases (stage_one fetch sha256 compiles base hashes f)) [
        | inl failed ↦ absurd (ground arith)
        | inr (bytes, got) ↦
            stage-member base hashes n fs (put f bytes staged) out
              (elim (Bool-cases (text_eq f n)) [
                | inl hit ↦
                    let same : f ≡ n = text_eq→eq f n hit in
                    inr (bytes, rw same (get-put_same n bytes staged))
                | inr miss ↦ elim h [
                  | inl listed ↦ inl (ground (arith, text_eq_sym f n))
                  | inr (b, there) ↦ inr (b, get-put_other f n bytes staged miss ∙ there)
                ]
              ])
              (ground arith)
      ]

  -- what an upgrade that restarts installed
  installed :
      (master_url : Text) (msg : Upgrade) (h : Host)
      → (self_upgrade fetch sha256 compiles master_url msg h).1 ≡ true
      → (staged : Files) × (stage fetch sha256 compiles
            (master_url ++ codes "/dl")
            msg.sha256
            (files_or (some msg.files))
            []
          ≡ some staged)
        × ((self_upgrade fetch sha256 compiles master_url msg h).0.files
            ≡ install h.copies staged h.files)
  installed master_url msg h restarts =
      elim (Bool-cases (h.upgraded || version_leb (vtuple msg.version) (vtuple agent_version))) [
        | inl e ↦ absurd (unfold self_upgrade in ground arith)
        | inr e ↦
            elim (Option-cases (
              stage fetch sha256 compiles (master_url ++ codes "/dl") msg.sha256
                (files_or (some msg.files)) [])) [
                  | inl f ↦ absurd (unfold self_upgrade in ground arith)
                  | inr (staged, f) ↦ (staged, f, unfold self_upgrade in rw (e, f) refl)
                ]
      ]

  -- A rollback undoes an upgrade: after an upgrade with which the agent restarts, a start at which
  -- the boot guard goes back to the backups gives a file that was there before its old contents
  -- again, if the upgrade replaced it or there was no backup of it before. Its name ends neither
  -- in `.bak` nor in `.new`, no name that the message lists ends in `.bak`, no file of the
  -- directory is a backup of a backup, the copy of the old contents to the backup and the copy
  -- from it succeed, whatever becomes of other copies and of the marker, the new files can be
  -- written and moved, and the old contents compile if the file is a `.py` file.
  pub boot_guard-self_upgrade :
      (master_url n old : Text) (msg : Upgrade) (h : Host) (disk : Disk) (now : ℕ)
      (marker : Option (List ℕ))
      → let after = (self_upgrade fetch sha256 compiles master_url msg h).0.files in
        let boot =
          boot_guard compiles disk now (record { files = after; boot_attempts = marker }) in
        IsPlain n
        → IsLasting n
        → All (λ f. Single f.0) h.files
        → All IsPlain (files_or (some msg.files))
        → (text_member n (files_or (some msg.files)) ≡ true) ⊎ (get (bak_of n) h.files ≡ none)
        → get n h.files ≡ some old
        → h.copies (bak_of n) old ≡ some old
        → disk.copies n old ≡ some old
        → (ends_with (codes ".py") n ≡ true → compiles old ≡ true)
        → (self_upgrade fetch sha256 compiles master_url msg h).1 ≡ true
        → boot.1 ≡ true
        → get n boot.0.files ≡ some old
  boot_guard-self_upgrade master_url n old msg h disk now marker plain lasting single names known
        here copied copied_back sound restarts fires =
      let (staged, got, same) = installed master_url msg h restarts in
      let own : All (λ f. IsPlain f.0) staged =
        stage-IsPlain (master_url ++ codes "/dl") msg.sha256 (files_or (some msg.files)) [] staged
          names tt got in
      let once : Distinct staged =
        stage-keeps fetch sha256 compiles Distinct (master_url ++ codes "/dl") msg.sha256
          (files_or (some msg.files)) [] staged (λ f bytes done step d. put-Distinct f bytes done d)
          tt got in
      let back : get n (
            restore compiles disk.copies (backups (install h.copies staged h.files))
              (install h.copies staged h.files))
          ≡ some old =
        rolled_back compiles disk.copies n old plain (install h.copies staged h.files)
          (install-Single h.copies staged h.files own single) sound copied_back
          (elim (Option-cases (get n staged)) [
            | inr (new, there) ↦ inl (
                install-backup h.copies n plain lasting staged h.files new old own once there here
                  copied)
            | inl absent ↦ elim known [
              | inl asked ↦ absurd (
                  let (bytes, there) =
                    stage-member (master_url ++ codes "/dl") msg.sha256 n
                      (files_or (some msg.files)) [] staged (inl asked) got in
                  cc)
              | inr fresh ↦
                  let (stays, none_yet) =
                    install-other h.copies n plain lasting staged h.files own absent in
                  inr (none_yet ∙ fresh, stays ∙ here)
            ]
          ]) in
      let after = (self_upgrade fetch sha256 compiles master_url msg h).0.files in
      let i : Install = record { files = after; boot_attempts = marker } in
      ap (get n) (
        boot_guard-files compiles disk now i fires
        ∙ ap (λ fs. restore compiles disk.copies (backups fs) fs) same)
      ∙ back
