-- ===== src/Supervisor/Boot.antt =====
-- rctunnel-panel/agent/rctunnel_agent.py: `_boot_guard`. The state is the install directory and the
-- marker file with the times of the last boots, in seconds.
use rc_tunnel.Base.{
  ℕ, ◌+◌, ◌-◌, Bool, true, false, not, ◌&&◌, Option, none, some, List, [], ◌∷◌, ◌++◌, length, map,
  select, ltb, leb, Text, codes, ends_with, take, if◌then◌else◌,
}
use rc_tunnel.Base.Dict.{get, text_key}
use rc_tunnel.Supervisor.Ota.{Files, Copies, copy2}

-- `[-10:]`
unfoldable pub drop_to : ℕ → List ℕ → List ℕ
drop_to n [] = []
drop_to n (t ∷ ts) = let rest = drop_to n ts in if leb (length (t ∷ ts)) n then t ∷ ts else rest

-- the boots of the last two minutes, at most ten of them, and this one
unfoldable pub attempts_at : ℕ → Option (List ℕ) → List ℕ
unfolding drop_to
attempts_at now none = now ∷ []
attempts_at now (some times) = drop_to 10 (select (λ t. ltb now (t + 120)) times) ++ (now ∷ [])

abbrev pub is_bak : Text × Text → Bool
is_bak (name, bytes) = ends_with (codes ".bak") name

-- `bak.with_suffix("")`
unfoldable pub without_bak : Text → Text
without_bak name = take (length name - 4) name

-- one backup, as it is when its turn comes; a broken one is left alone
unfoldable pub restore_one : (Text → Bool) → Copies → Text → Files → Files
restore_one compiles copies name files = elim (get name files) [
  | none ↦ files
  | some bytes ↦
      if ends_with (codes ".py.bak") name && not (compiles bytes)
      then files
      else copy2 copies (without_bak name) bytes files
]

unfoldable pub restore : (Text → Bool) → Copies → List Text → Files → Files
restore compiles copies [] files = files
restore compiles copies (bak ∷ baks) files =
    restore compiles copies baks (restore_one compiles copies bak files)

-- `install_dir.glob("*.bak")`
unfoldable pub backups : Files → List Text
backups files = map (λ f. f.0) (select is_bak files)

pub record Install : Type 0 where
  pub files : Files
  pub boot_attempts : Option (List ℕ)

-- what becomes of a write of the marker; one that fails may have emptied it
pub data Write : Type 0 where
  done unchanged emptied : Write

-- what becomes of the copies, the write and the `unlink` of one run, whose failures are swallowed
pub record Disk : Type 0 where
  pub copies : Copies
  pub writes : Write
  pub unlinks : Bool

abbrev pub noted : Write → List ℕ → Option (List ℕ) → Option (List ℕ)
noted done attempts marker = some attempts
noted unchanged attempts marker = marker
noted emptied attempts marker = some []

abbrev pub unlinked : Bool → Option (List ℕ) → Option (List ℕ)
unlinked true marker = none
unlinked false marker = marker

-- whether the guard restarts the process into the restored code
unfoldable pub boot_guard : (Text → Bool) → Disk → ℕ → Install → Install × Bool
boot_guard compiles disk now i =
    let attempts = attempts_at now i.boot_attempts in
    let baks = backups i.files in
    if leb 5 (length attempts) && leb 1 (length baks)
    then (
      record {
        files = restore compiles disk.copies baks i.files;
        boot_attempts = unlinked disk.unlinks i.boot_attempts;
      },
      true,
    )
    else (record i { boot_attempts = noted disk.writes attempts i.boot_attempts }, false)

-- a session that connected clears the marker, if the `unlink` succeeds
abbrev pub clear_boot_attempts : Bool → Install → Install
clear_boot_attempts unlinks i = record i { boot_attempts = unlinked unlinks i.boot_attempts }
