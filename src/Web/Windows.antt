-- ===== src/Web/Windows.antt =====
-- rctunnel-panel/rctunnel_panel/web/routes.py: `_online_intervals`, the times at which an agent was
-- online, from the events of its connections.
use rc_tunnel.Base.{
  ℕ, ◌≤◌, ◌<◌, Option, none, some, List, [], ◌∷◌, ltb, leb, arith, if◌then◌else◌, Bool-cases, inl,
  inr,
}

-- the events of interest, and others
pub data Uptime : Type 0 where
  came went other : Uptime

abbrev pub Interval : Type 0
Interval = ℕ × ℕ

-- what was online before the first event
unfoldable pub coming_in : ℕ → List (ℕ × Uptime) → Option ℕ
coming_in window_start ((ts, went) ∷ events) = some window_start
coming_in window_start _ = none

abbrev pub opened : Option ℕ → ℕ → Option ℕ
opened none ts = some ts
opened (some start) ts = some start

abbrev pub closed_at : Option ℕ → ℕ → List Interval → List Interval
closed_at none now rest = rest
closed_at (some start) now rest = (start, now) ∷ rest

-- the loop, with the start of the interval that is open
unfoldable pub scan : ℕ → Option ℕ → List (ℕ × Uptime) → List Interval
scan now start [] = closed_at start now []
scan now start ((ts, came) ∷ events) = scan now (opened start ts) events
scan now start ((ts, went) ∷ events) = closed_at start ts (scan now none events)
scan now start ((ts, other) ∷ events) = scan now start events

abbrev pub later_of : ℕ → ℕ → ℕ
later_of a b = if leb a b then b else a

abbrev pub earlier_of : ℕ → ℕ → ℕ
earlier_of a b = if leb a b then a else b

unfoldable pub clamp : ℕ → ℕ → List Interval → List Interval
clamp lo hi [] = []
clamp lo hi ((s, e) ∷ rest) =
    let more = clamp lo hi rest in
    if ltb (later_of s lo) (earlier_of e hi) then (later_of s lo, earlier_of e hi) ∷ more else more

unfoldable pub online_intervals : List (ℕ × Uptime) → ℕ → ℕ → List Interval
unfolding coming_in scan clamp
online_intervals events window_start now =
    clamp window_start now (scan now (coming_in window_start events) events)

-- the events are in the order of their times
abbrev pub Timed : ℕ → List (ℕ × Uptime) → Type 0
Timed from [] = Unit
Timed from ((ts, ev) ∷ events) = (from ≤ ts) × Timed ts events

-- one after the other, from some time on and up to another
abbrev pub Ordered : ℕ → ℕ → List Interval → Type 0
Ordered lo hi [] = Unit
Ordered lo hi ((s, e) ∷ rest) = (lo ≤ s) × (s < e) × (e ≤ hi) × Ordered e hi rest

-- the same without the upper bound, before the clamp; an interval may be empty
abbrev Chained : ℕ → List Interval → Type 0
Chained from [] = Unit
Chained from ((s, e) ∷ rest) = (from ≤ s) × Chained (later_of e from) rest

abbrev Above : ℕ → Option ℕ → Type 0
Above from none = Unit
Above from (some start) = from ≤ start

scan-Chained :
    (now from clock : ℕ) (start : Option ℕ) (events : List (ℕ × Uptime))
    → from ≤ clock
    → Above from start
    → Timed clock events
    → Chained from (scan now start events)
unfolding scan
scan-Chained now from clock none [] le above timed = tt
scan-Chained now from clock (some start) [] le above timed = (above, tt)
scan-Chained now from clock none ((ts, came) ∷ events) le above (t, timed) =
    scan-Chained now from ts (some ts) events (omega arith) (omega arith) timed
scan-Chained now from clock (some start) ((ts, came) ∷ events) le above (t, timed) =
    scan-Chained now from ts (some start) events (omega arith) above timed
scan-Chained now from clock none ((ts, went) ∷ events) le above (t, timed) =
    scan-Chained now from ts none events (omega arith) tt timed
scan-Chained now from clock (some start) ((ts, went) ∷ events) le above (t, timed) =
    (above, scan-Chained now (later_of ts from) ts none events (ground arith) tt timed)
scan-Chained now from clock start ((ts, other) ∷ events) le above (t, timed) =
    scan-Chained now from ts start events (omega arith) above timed

clamp-Ordered :
    (lo hi low from : ℕ) (xs : List Interval)
    → Chained from xs
    → low ≤ later_of from lo
    → Ordered low hi (clamp lo hi xs)
unfolding clamp
clamp-Ordered lo hi low from [] c le = tt
clamp-Ordered lo hi low from ((s, e) ∷ rest) (cs, c) le =
    elim (Bool-cases (ltb (later_of s lo) (earlier_of e hi))) [
      | inl kept ↦ rw kept (
        ground arith,
        ground arith,
        ground arith,
        clamp-Ordered lo hi (earlier_of e hi) (later_of e from) rest c (ground arith),
      )
      | inr gone ↦ rw gone (clamp-Ordered lo hi low (later_of e from) rest c (ground arith))
    ]

coming_in-Above :
    (window_start : ℕ) (events : List (ℕ × Uptime)) → Above 0 (coming_in window_start events)
unfolding coming_in
coming_in-Above window_start [] = tt
coming_in-Above window_start ((ts, came) ∷ events) = tt
coming_in-Above window_start ((ts, went) ∷ events) = omega arith
coming_in-Above window_start ((ts, other) ∷ events) = tt

-- The times at which an agent was online come one after the other without overlap, each of them
-- longer than nothing and within the window up to now. The events are in the order of their times.
pub online_intervals-Ordered :
    (events : List (ℕ × Uptime)) (window_start now : ℕ)
    → Timed 0 events
    → Ordered window_start now (online_intervals events window_start now)
unfolding online_intervals
online_intervals-Ordered events window_start now timed =
    clamp-Ordered window_start now window_start 0 _
      (scan-Chained now 0 0 (coming_in window_start events) events (omega arith)
        (coming_in-Above window_start events) timed)
      (ground arith)
