-- ===== src/Supervisor/Rollback.antt =====
-- rctunnel-panel/agent/rctunnel_agent.py: when `_boot_guard` goes back to the backups.
pub mod Fires
use rc_tunnel.Base.{
  ℕ, zero, suc, ◌+◌, ◌≤◌, ◌<◌, ◌≡◌, sym, ◌∙◌, Bool, true, false, not, ◌&&◌, Option, none, some,
  List, [], ◌∷◌, ◌++◌, All, Perhaps, length, map, select, length-append, length-select-le, ltb, leb,
  le→leb, leb→le, arith, Text, Bool-cases, inl, inr, if◌then◌else◌,
}
use rc_tunnel.Supervisor.Ota.{Files}
use rc_tunnel.Supervisor.Boot.{
  drop_to, attempts_at, Install, Disk, noted, boot_guard, backups, restore, clear_boot_attempts,
}

length-drop_to-le : (n : ℕ) (ts : List ℕ) → length (drop_to n ts) ≤ n
unfolding drop_to
length-drop_to-le n [] = omega arith
length-drop_to-le n (t ∷ ts) = ground (arith, length-drop_to-le n ts)

pub length-drop_to : (n : ℕ) (ts : List ℕ) → length (drop_to n ts) ≤ length ts
unfolding drop_to
length-drop_to n [] = omega arith
length-drop_to n (t ∷ ts) = ground (arith, length-drop_to n ts)

-- the times in the marker
abbrev pub marked : Option (List ℕ) → ℕ
marked none = 0
marked (some ts) = length ts

length-attempts_at : (now : ℕ) (m : Option (List ℕ)) → length (attempts_at now m) ≤ marked m + 1
unfolding attempts_at
length-attempts_at now none = omega arith
length-attempts_at now (some ts) = omega (
  arith,
  length-append (drop_to 10 (select (λ t. ltb now (t + 120)) ts)) (now ∷ []),
  length-drop_to 10 (select (λ t. ltb now (t + 120)) ts),
  length-select-le (λ t. ltb now (t + 120)) ts,
)

-- what happens to an agent: the process starts at some time, or its session connects and the
-- `unlink` of the marker succeeds or not
pub data Life : Type 0 where
  starts : ℕ → Disk → Life
  connects : Bool → Life

-- up to the first rollback
unfoldable pub lives : (Text → Bool) → List Life → Install → Install × Bool
lives compiles [] i = (i, false)
lives compiles (connects unlinks ∷ later) i = lives compiles later (clear_boot_attempts unlinks i)
lives compiles (starts now disk ∷ later) i =
    let rest = lives compiles later (boot_guard compiles disk now i).0 in
    if (boot_guard compiles disk now i).1 then boot_guard compiles disk now i else rest

-- Fewer than five starts in a row, of which there were `n` before. A connection whose marker is
-- not cleared does not end the row.
abbrev pub Connecting : ℕ → List Life → Type 0
Connecting n [] = Unit
Connecting n (connects true ∷ later) = Connecting 0 later
Connecting n (connects false ∷ later) = Connecting n later
Connecting n (starts now disk ∷ later) = (n < 4) × Connecting (n + 1) later

pub boot_guard-waits :
    (compiles : Text → Bool) (disk : Disk) (now : ℕ) (i : Install)
    → marked i.boot_attempts < 4
    → boot_guard compiles disk now i ≡ (
      record i {
        boot_attempts = noted disk.writes (attempts_at now i.boot_attempts) i.boot_attempts;
      },
      false,
    )
unfolding boot_guard
boot_guard-waits compiles disk now i few = ground (arith, length-attempts_at now i.boot_attempts)
