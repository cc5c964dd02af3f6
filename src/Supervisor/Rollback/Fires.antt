-- ===== src/Supervisor/Rollback/Fires.antt =====
-- rctunnel-panel/agent/rctunnel_agent.py: the starts of a crash loop, as `_boot_guard` counts them.
use rc_tunnel.Base.{
  ℕ, ◌+◌, ◌≤◌, ◌<◌, ◌≡◌, refl, ap, sym, ◌∙◌, Bool, true, false, Option, none, some, List, [], ◌∷◌,
  ◌++◌, All, length, map, select, length-append, append_assoc, append-nil, ltb, leb, arith, Text,
  codes, text_member, ends_with, Bool-cases, inl, inr, All-append,
}
use rc_tunnel.Base.Dict.{get, text_key}
use rc_tunnel.Supervisor.Ota.{Files}
use rc_tunnel.Supervisor.Boot.{
  drop_to, attempts_at, Install, done, Disk, boot_guard, backups, restore, unlinked,
}
use rc_tunnel.Supervisor.Names.{bak_of, bak_of-ends_with, Single, IsPlain}
use rc_tunnel.Supervisor.Undone.{backups-member, rolled_back}
use rc_tunnel.Supervisor.Rollback.{Life, starts, lives}

drop_to-short : (n : ℕ) (ts : List ℕ) → length ts ≤ n → drop_to n ts ≡ ts
unfolding drop_to
drop_to-short n [] h = refl
drop_to-short n (t ∷ ts) h = ground (arith, h)

-- a list ends in another one
abbrev EndsIn : List ℕ → List ℕ → Type 0
EndsIn ts recent = (before : List ℕ) × (ts ≡ before ++ recent)

drop_to-EndsIn :
    (n : ℕ) (xs recent : List ℕ) → length recent ≤ n → EndsIn (drop_to n (xs ++ recent)) recent
unfolding drop_to
drop_to-EndsIn n [] recent h = ([], drop_to-short n recent h)
drop_to-EndsIn n (x ∷ xs) recent h = elim (Bool-cases (leb (length (x ∷ (xs ++ recent))) n)) [
  | inl e ↦ (x ∷ xs, rw e refl)
  | inr e ↦ rw e (drop_to-EndsIn n xs recent h)
]

select-append : (p : ℕ → Bool) (xs ys : List ℕ) → select p (xs ++ ys) ≡ select p xs ++ select p ys
select-append p [] ys = refl
select-append p (x ∷ xs) ys = ground (arith, select-append p xs ys)

-- within two minutes from `first`
abbrev pub Within : ℕ → ℕ → Type 0
Within first t = (first ≤ t) × (t < first + 120)

select-Within :
    (first now : ℕ) (ts : List ℕ)
    → Within first now
    → All (Within first) ts
    → select (λ t. ltb now (t + 120)) ts ≡ ts
select-Within first now [] w h = refl
select-Within first now (t ∷ ts) w (ht, h) = ground (arith, select-Within first now ts w h, ht, w)

-- the times in the marker
abbrev times : Option (List ℕ) → List ℕ
times none = []
times (some ts) = ts

attempts_at-times :
    (now : ℕ) (m : Option (List ℕ))
    → attempts_at now m ≡ drop_to 10 (select (λ t. ltb now (t + 120)) (times m)) ++ (now ∷ [])
unfolding attempts_at drop_to
attempts_at-times now none = refl
attempts_at-times now (some ts) = refl

attempts_at-EndsIn :
    (first now : ℕ) (m : Option (List ℕ)) (recent : List ℕ)
    → Within first now
    → All (Within first) recent
    → length recent ≤ 10
    → EndsIn (times m) recent
    → EndsIn (attempts_at now m) (recent ++ (now ∷ []))
attempts_at-EndsIn first now m recent w ws few (before, e) =
    let kept = select (λ t. ltb now (t + 120)) before in
    let (gone, f) : EndsIn (drop_to 10 (kept ++ recent)) recent =
      drop_to-EndsIn 10 kept recent few in
    (
      gone,
      attempts_at-times now m
          ∙ rw
              (
                e,
                select-append (λ t. ltb now (t + 120)) before recent,
                select-Within first now recent w ws,
                f,
              )
              (append_assoc gone recent (now ∷ [])),
    )

-- what a rollback leaves
abbrev rolled : (Text → Bool) → Disk → Files → Option (List ℕ) → Install
rolled compiles disk files marker = record {
  files = restore compiles disk.copies (backups files) files;
  boot_attempts = unlinked disk.unlinks marker;
}

boot_guard-fires :
    (compiles : Text → Bool) (disk : Disk) (now : ℕ) (i : Install)
    → 1 ≤ length (backups i.files)
    → leb 5 (length (attempts_at now i.boot_attempts)) ≡ true
    → boot_guard compiles disk now i ≡ (rolled compiles disk i.files i.boot_attempts, true)
unfolding boot_guard
boot_guard-fires compiles disk now i kept e = ground arith

boot_guard-notes :
    (compiles : Text → Bool) (disk : Disk) (now : ℕ) (i : Install)
    → disk.writes ≡ done
    → leb 5 (length (attempts_at now i.boot_attempts)) ≡ false
    → boot_guard compiles disk now i
      ≡ (record i { boot_attempts = some (attempts_at now i.boot_attempts) }, false)
unfolding boot_guard
boot_guard-notes compiles disk now i w e = rw (e, w) refl

-- a start, at this time and with what becomes of its writes
abbrev pub start : ℕ × Disk → Life
start (t, disk) = starts t disk

-- within two minutes from `first`, with a marker that can be written, and for which `A` holds
abbrev pub Counts : ℕ → (Disk → Type 0) → ℕ × Disk → Type 0
Counts first A (t, disk) = Within first t × (disk.writes ≡ done) × A disk

module _ (compiles : Text → Bool) (first : ℕ) (A : Disk → Type 0) (P : Install → Type 0) where
  -- The same with the starts that were seen before.
  lives-fires :
      (recent : List ℕ) (ts : List (ℕ × Disk)) (later : List Life) (i : Install)
      → EndsIn (times i.boot_attempts) recent
      → All (Within first) recent
      → All (Counts first A) ts
      → length recent ≤ 4
      → 5 ≤ length recent + length ts
      → 1 ≤ length (backups i.files)
      → ((disk : Disk) (marker : Option (List ℕ))
          → A disk
          → P (rolled compiles disk i.files marker))
      → ((lives compiles (map start ts ++ later) i).1 ≡ true)
        × P (lives compiles (map start ts ++ later) i).0
  unfolding lives
  lives-fires recent [] later i e ws vs few many kept back = absurd (omega arith)
  lives-fires recent ((t, disk) ∷ ts) later i e ws ((v, noting, able), vs) few many kept back =
      elim (Bool-cases (leb 5 (length (attempts_at t i.boot_attempts)))) [
        | inl full ↦
            rw (boot_guard-fires compiles disk t i kept full) (refl, back disk i.boot_attempts able)
        | inr short ↦
            let (before, f) : EndsIn (attempts_at t i.boot_attempts) (recent ++ (t ∷ [])) =
              attempts_at-EndsIn first t i.boot_attempts recent v ws (omega arith) e in
            let size : length recent + 1 ≤ 4 = ground (
              arith,
              short,
              ap length f,
              length-append before (recent ++ (t ∷ [])),
              length-append recent (t ∷ []),
            ) in
            rw (boot_guard-notes compiles disk t i noting short) (
              lives-fires (recent ++ (t ∷ [])) ts later
                (record i { boot_attempts = some (attempts_at t i.boot_attempts) }) (before, f)
                (All-append (Within first) recent (t ∷ []) ws (v, tt)) vs
                (omega (arith, size, length-append recent (t ∷ [])))
                (omega (arith, many, length-append recent (t ∷ []))) kept back)
      ]

length-member : (b : Text) (bs : List Text) → text_member b bs ≡ true → 1 ≤ length bs
length-member b [] h = absurd (cc)
length-member b (c ∷ bs) h = omega arith

-- the copy back to this name succeeds, and the marker can be removed
abbrev pub CanRestore : Text → Text → Disk → Type 0
CanRestore n old disk = (disk.copies n old ≡ some old) × (disk.unlinks ≡ true)

-- Of at least five starts in a row within two minutes, with no connection between them, one goes
-- back to the backups, whatever the marker lists before and whatever comes after, and then a file
-- that has a backup has its contents again and the marker is gone. At each of these starts the
-- marker can be written and removed and the copy of that backup succeeds. The name of the file does
-- not end in `.bak`, no file of the directory is a backup of a backup, and the backup compiles if
-- the file is a `.py` file.
pub lives-restores :
    (compiles : Text → Bool) (first : ℕ) (n old : Text) (ts : List (ℕ × Disk)) (later : List Life)
    (i : Install)
    → All (Counts first (CanRestore n old)) ts
    → 5 ≤ length ts
    → IsPlain n
    → All (λ f. Single f.0) i.files
    → get (bak_of n) i.files ≡ some old
    → (ends_with (codes ".py") n ≡ true → compiles old ≡ true)
    → ((lives compiles (map start ts ++ later) i).1 ≡ true)
      × (get n (lives compiles (map start ts ++ later) i).0.files ≡ some old)
      × ((lives compiles (map start ts ++ later) i).0.boot_attempts ≡ none)
lives-restores compiles first n old ts later i vs many plain single there sound =
    let (fires, (back, gone)) =
      lives-fires compiles first (CanRestore n old)
        (λ j. (get n j.files ≡ some old) × (j.boot_attempts ≡ none)) [] ts later i
        (times i.boot_attempts, sym (append-nil (times i.boot_attempts))) tt vs (omega arith)
        (omega arith)
        (length-member (bak_of n) (backups i.files)
          (backups-member (bak_of n) old i.files (bak_of-ends_with n) there))
        (λ disk marker able. (
          rolled_back compiles disk.copies n old plain i.files single sound able.0 (inl there),
          rw (able.1) refl,
        )) in
    (fires, back, gone)
