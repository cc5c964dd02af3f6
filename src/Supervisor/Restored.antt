-- ===== src/Supervisor/Restored.antt =====
-- rctunnel-panel/agent/rctunnel_agent.py: what the rollback of `_boot_guard` gives back.
use rc_tunnel.Base.{
  ◌≡◌, refl, ap, ◌∙◌, ◌⊎◌, Bool, true, false, not, ◌&&◌, none, some, List, [], ◌∷◌, All, arith,
  Text, codes, text_eq, text_eq→eq, text_eq_refl, text_eq_sym, text_member, ends_with, Bool-cases,
  Option-cases, inl, inr,
}
use rc_tunnel.Base.Dict.{get, get-put_other, get-put_same, put-All, get-All, text_key}
use rc_tunnel.Supervisor.Ota.{Files, Copies, copy2}
use rc_tunnel.Supervisor.Boot.{without_bak, restore_one, restore}
use rc_tunnel.Supervisor.Names.{
  bak_of, bak_of-without_bak, without_bak-bak_of, bak_of-source, Single, IsPlain, Single-IsPlain,
  IsPlain-Single,
}
use rc_tunnel.Supervisor.Backups.{plain_bak}

module _ (compiles : Text → Bool) (copies : Copies) (n : Text) (plain : IsPlain n) where
  -- what one round of the rollback leaves alone
  restore_one-keeps :
      (name : Text) (files : Files)
      → ends_with (codes ".bak") name ≡ true
      → All (λ f. Single f.0) files
      → (get (bak_of n) (restore_one compiles copies name files) ≡ get (bak_of n) files)
        × All (λ f. Single f.0) (restore_one compiles copies name files)
  unfolding restore_one copy2 get
  restore_one-keeps name files bak single = elim (Option-cases (get name files)) [
    | inl e ↦ rw (restore_one, e) (refl, single)
    | inr (bytes, e) ↦
        elim (Bool-cases (ends_with (codes ".py.bak") name && not (compiles bytes))) [
          | inl broken ↦ rw (restore_one, e, broken) (refl, single)
          | inr sound ↦ elim (Option-cases (copies (without_bak name) bytes)) [
            | inl failed ↦ rw (restore_one, e, sound, copy2, failed) (refl, single)
            | inr (written, done) ↦
                let shape : name ≡ bak_of (without_bak name) = bak_of-without_bak name bak in
                let target : IsPlain (without_bak name) =
                  Single-IsPlain (without_bak name)
                    (rw (← shape) (get-All (λ f. Single f.0) name bytes files e single)) in
                rw (restore_one, e, sound, copy2, done)
                  (
                    get-put_other (without_bak name) (bak_of n) written files
                        (plain_bak (without_bak name) n target),
                    put-All (λ f. Single f.0) (without_bak name) written files
                        (IsPlain-Single (without_bak name) target) single,
                  )
          ]
        ]
  ]

  restore_one-other :
      (name : Text) (files : Files)
      → ends_with (codes ".bak") name ≡ true
      → text_eq name (bak_of n) ≡ false
      → get n (restore_one compiles copies name files) ≡ get n files
  unfolding restore_one copy2 get
  restore_one-other name files bak other = elim (Option-cases (get name files)) [
    | inl e ↦ rw (restore_one, e) refl
    | inr (bytes, e) ↦
        elim (Bool-cases (ends_with (codes ".py.bak") name && not (compiles bytes))) [
          | inl broken ↦ rw (restore_one, e, broken) refl
          | inr sound ↦ elim (Option-cases (copies (without_bak name) bytes)) [
            | inl failed ↦ rw (restore_one, e, sound, copy2, failed) refl
            | inr (written, done) ↦
                rw (restore_one, e, sound, copy2, done)
                  (get-put_other (without_bak name) n written files
                    (elim (Bool-cases (text_eq (without_bak name) n)) [
                      | inr miss ↦ miss
                      | inl hit ↦ absurd (
                          let same : name ≡ bak_of n =
                            bak_of-without_bak name bak
                            ∙ ap bak_of (text_eq→eq (without_bak name) n hit) in
                          let bad : text_eq name (bak_of n) ≡ true =
                            rw same (text_eq_refl (bak_of n)) in
                          cc)
                    ]))
          ]
        ]
  ]

  -- without a backup a file stays
  pub restore-without :
      (baks : List Text) (files : Files)
      → All (λ b. ends_with (codes ".bak") b ≡ true) baks
      → All (λ f. Single f.0) files
      → get (bak_of n) files ≡ none
      → get n (restore compiles copies baks files) ≡ get n files
  unfolding restore restore_one get
  restore-without [] files bak single gone = refl
  restore-without (b ∷ baks) files (bak, later) single gone =
      let (kept, single') = restore_one-keeps b files bak single in
      let step : get n (restore_one compiles copies b files) ≡ get n files =
        elim (Bool-cases (text_eq b (bak_of n))) [
          | inl hit ↦
              let same : b ≡ bak_of n = text_eq→eq b (bak_of n) hit in
              let absent : get b files ≡ none = rw same gone in rw (restore_one, absent) refl
          | inr miss ↦ restore_one-other b files bak miss
        ] in
      restore-without baks (restore_one compiles copies b files) later single' (kept ∙ gone) ∙ step

  module _ (old : Text) (sound : ends_with (codes ".py") n ≡ true → compiles old ≡ true)
      (done : copies n old ≡ some old) where
    restore_one-back :
        (files : Files)
        → get (bak_of n) files ≡ some old
        → get n (restore_one compiles copies (bak_of n) files) ≡ some old
    unfolding restore_one copy2 get
    restore_one-back files there =
        let fine : (ends_with (codes ".py.bak") (bak_of n) && not (compiles old)) ≡ false =
          elim (Bool-cases (ends_with (codes ".py.bak") (bak_of n))) [
            | inr other ↦ rw other refl
            | inl py ↦ let good = sound (bak_of-source n py) in rw (py, good) refl
          ] in
        let written : copies (without_bak (bak_of n)) old ≡ some old =
          ap (λ m. copies m old) (without_bak-bak_of n) ∙ done in
        rw (restore_one, there, fine, copy2, written)
          (rw (without_bak-bak_of n) (get-put_same n old files))

    -- what has come back stays
    pub restore-stays :
        (baks : List Text) (files : Files)
        → All (λ b. ends_with (codes ".bak") b ≡ true) baks
        → All (λ f. Single f.0) files
        → get (bak_of n) files ≡ some old
        → (text_member (bak_of n) baks ≡ true) ⊎ (get n files ≡ some old)
        → get n (restore compiles copies baks files) ≡ some old
    unfolding restore
    restore-stays [] files bak single there (inl h) = absurd (cc)
    restore-stays [] files bak single there (inr h) = h
    restore-stays (b ∷ baks) files (bak, later) single there h =
        let (kept, single') = restore_one-keeps b files bak single in
        elim (Bool-cases (text_eq b (bak_of n))) [
          | inl hit ↦
              let same : b ≡ bak_of n = text_eq→eq b (bak_of n) hit in
              restore-stays baks (restore_one compiles copies b files) later single' (kept ∙ there)
                (inr (rw same (restore_one-back files there)))
          | inr miss ↦
              restore-stays baks (restore_one compiles copies b files) later single' (kept ∙ there)
                (elim h [
                  | inl listed ↦ inl (ground (arith, text_eq_sym b (bak_of n)))
                  | inr here ↦ inr (restore_one-other b files bak miss ∙ here)
                ])
        ]
