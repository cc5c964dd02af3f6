-- ===== src/Supervisor/Backups.antt =====
-- rctunnel-panel/agent/rctunnel_agent.py: the backups that an upgrade leaves, and what the rollback
-- makes of them.
use rc_tunnel.Base.{
  ◌≡◌, refl, ap, ◌∙◌, true, if◌then◌else◌, false, none, some, [], ◌∷◌, All, arith, Text, codes,
  text_eq, text_eq→eq, ends_with, Bool-cases, Option-cases, inl, inr,
}
use rc_tunnel.Base.Dict.{
  get, put, pop, get-put, get-put_other, get-put_same, get-pop_other, put-All, pop-All, Distinct,
  text_key,
}
use rc_tunnel.Supervisor.Ota.{Files, Copies, copy2, os_replace, back_up, install_one, install}
use rc_tunnel.Supervisor.Names.{
  bak_of, bak_of-ends_with, Single, IsPlain, bak_of-Single, IsPlain-Single, text_eq-plain,
  text_eq-bak_of, new_of, IsLasting, new_of-bak_of, new_of-lasting, new_of-Single,
}

pub plain_bak : (f n : Text) → IsPlain f → text_eq f (bak_of n) ≡ false
plain_bak f n plain = elim (Bool-cases (text_eq f (bak_of n))) [
  | inl e ↦ absurd (
      let same = text_eq→eq f (bak_of n) e in
      let bad : ends_with (codes ".bak") f ≡ true = rw same (bak_of-ends_with n) in cc)
  | inr e ↦ e
]

module _ (copies : Copies) where
  back_up-other :
      (f m : Text) (files : Files)
      → text_eq (bak_of f) m ≡ false
      → get m (back_up copies f files) ≡ get m files
  unfolding back_up copy2
  back_up-other f m files other = elim (Option-cases (get f files)) [
    | inl e ↦ rw (back_up, e) refl
    | inr (old, e) ↦ elim (Option-cases (copies (bak_of f) old)) [
      | inl failed ↦ rw (back_up, e, copy2, failed) refl
      | inr (written, done) ↦
          rw (back_up, e, copy2, done) (get-put_other (bak_of f) m written files other)
    ]
  ]

  back_up-same :
      (f old : Text) (files : Files)
      → get f files ≡ some old
      → copies (bak_of f) old ≡ some old
      → get (bak_of f) (back_up copies f files) ≡ some old
  unfolding back_up copy2
  back_up-same f old files e done = rw (back_up, e, copy2, done) (get-put_same (bak_of f) old files)

  -- the old contents of the `.new` file are lost, and it is gone
  install_one_lem :
      (f bytes : Text) (files : Files)
      → install_one copies f bytes files
        ≡ put f bytes (pop (new_of f) (put (new_of f) bytes (back_up copies f files)))
  unfolding install_one os_replace
  install_one_lem f bytes files =
      rw (install_one, os_replace, get-put_same (new_of f) bytes (back_up copies f files)) refl

  get-install :
      (f bytes m : Text) (files : Files)
      → text_eq (new_of f) m ≡ false
      → get m (install_one copies f bytes files)
        ≡ (if text_eq f m then some bytes else get m (back_up copies f files))
  get-install f bytes m files other =
      let backed = back_up copies f files in
      ap (get m) (install_one_lem f bytes files)
      ∙ get-put f m bytes (pop (new_of f) (put (new_of f) bytes backed))
      ∙ ap (λ r. if text_eq f m then some bytes else r)
          (get-pop_other (new_of f) m (put (new_of f) bytes backed) other
            ∙ get-put_other (new_of f) m bytes backed other)

  -- the new file, and the others as they were
  pub get-install_one :
      (f bytes n : Text) (files : Files)
      → IsPlain n
      → IsLasting n
      → get n (install_one copies f bytes files) ≡ (if text_eq f n then some bytes else get n files)
  get-install_one f bytes n files plain lasting =
      get-install f bytes n files (new_of-lasting f n lasting)
      ∙ ap (λ r. if text_eq f n then some bytes else r)
          (back_up-other f n files (text_eq-plain (bak_of f) n (bak_of-ends_with f) plain))

  install_one-Single :
      (f bytes : Text) (files : Files)
      → IsPlain f
      → All (λ g. Single g.0) files
      → All (λ g. Single g.0) (install_one copies f bytes files)
  unfolding back_up copy2
  install_one-Single f bytes files plain h =
      let backed : All (λ g. Single g.0) (back_up copies f files) =
        elim (Option-cases (get f files)) [
          | inl e ↦ rw (back_up, e) h
          | inr (old, e) ↦ elim (Option-cases (copies (bak_of f) old)) [
            | inl failed ↦ rw (back_up, e, copy2, failed) h
            | inr (written, done) ↦
                rw (back_up, e, copy2, done)
                  (put-All (λ g. Single g.0) (bak_of f) written files (bak_of-Single f plain) h)
          ]
        ] in
      rw (install_one_lem f bytes files) (
        put-All (λ g. Single g.0) f bytes _ (IsPlain-Single f plain)
          (pop-All (λ g. Single g.0) (new_of f) _
            (put-All (λ g. Single g.0) (new_of f) bytes _ (new_of-Single f) backed)))

module _ (copies : Copies) (n : Text) (plain : IsPlain n) (lasting : IsLasting n) where
  install_one-other :
      (f bytes : Text) (files : Files)
      → IsPlain f
      → text_eq f n ≡ false
      → (get n (install_one copies f bytes files) ≡ get n files)
        × (get (bak_of n) (install_one copies f bytes files) ≡ get (bak_of n) files)
  install_one-other f bytes files own other = (
    get-install_one copies f bytes n files plain lasting ∙ rw other refl,
    get-install copies f bytes (bak_of n) files (new_of-bak_of f n)
        ∙ rw (plain_bak f n own)
            (back_up-other copies f (bak_of n) files (text_eq-bak_of f n ∙ other)),
  )

  install_one-backup :
      (bytes old : Text) (files : Files)
      → get n files ≡ some old
      → copies (bak_of n) old ≡ some old
      → get (bak_of n) (install_one copies n bytes files) ≡ some old
  install_one-backup bytes old files e done =
      get-install copies n bytes (bak_of n) files (new_of-bak_of n n)
      ∙ rw (plain_bak n n plain) (back_up-same copies n old files e done)

  -- what is not in the upgrade stays, and so does its backup
  pub install-other :
      (staged files : Files)
      → All (λ f. IsPlain f.0) staged
      → get n staged ≡ none
      → (get n (install copies staged files) ≡ get n files)
        × (get (bak_of n) (install copies staged files) ≡ get (bak_of n) files)
  unfolding install get
  install-other [] files own absent = (refl, refl)
  install-other ((f, bytes) ∷ staged) files (of, own) absent = elim (Bool-cases (text_eq f n)) [
    | inl hit ↦ absurd (ground arith)
    | inr miss ↦
        let (here, bak) = install_one-other f bytes files of miss in
        let (later, later_bak) =
          install-other staged (install_one copies f bytes files) own (ground arith) in
        (later ∙ here, later_bak ∙ bak)
  ]

  -- what the upgrade replaces has a backup
  pub install-backup :
      (staged files : Files) (new old : Text)
      → All (λ f. IsPlain f.0) staged
      → Distinct staged
      → get n staged ≡ some new
      → get n files ≡ some old
      → copies (bak_of n) old ≡ some old
      → get (bak_of n) (install copies staged files) ≡ some old
  unfolding install get
  install-backup [] files new old own once there e done = absurd (cc)
  install-backup ((f, bytes) ∷ staged) files new old (of, own) (last, once) there e done =
      elim (Bool-cases (text_eq f n)) [
        | inl hit ↦
            let same : f ≡ n = text_eq→eq f n hit in
            let gone : get n staged ≡ none = rw same at last in
            (install-other staged (install_one copies f bytes files) own gone).1
            ∙ rw same (install_one-backup bytes old files e done)
        | inr miss ↦
            install-backup staged (install_one copies f bytes files) new old own once (ground arith)
              ((install_one-other f bytes files of miss).0 ∙ e) done
      ]

-- an upgrade makes no backup of a backup
pub install-Single :
    (copies : Copies) (staged files : Files)
    → All (λ f. IsPlain f.0) staged
    → All (λ f. Single f.0) files
    → All (λ f. Single f.0) (install copies staged files)
unfolding install
install-Single copies [] files own h = h
install-Single copies ((f, bytes) ∷ staged) files (of, own) h =
    install-Single copies staged (install_one copies f bytes files) own
      (install_one-Single copies f bytes files of h)
