-- ===== src/RateLimit.antt =====
-- rctunnel-panel/rctunnel_panel/ratelimit.py: the login throttle, shared by the login form, the
-- login endpoint and enrollment. `_fails` is the state and `time.monotonic()` an argument, in
-- seconds. Each function takes the lock for its whole body, so it is one step.

pub mod Table
pub mod History
use rc_tunnel.Base.{
  ℕ, ◌+◌, Bool, false, Option, none, some, List, [], ◌∷◌, ◌++◌, length, select, ltb, leb, ◌||◌,
  if◌then◌else◌, Text, truthy, Result, ok, raise, too_many_attempts,
}
use rc_tunnel.Base.Dict.{text_key, get, put, pop}

abbrev pub window : ℕ
window = 300

abbrev pub max : ℕ
max = 8

abbrev pub max_ips : ℕ
max_ips = 50000

-- `_fails`: the times of the failures of each IP, oldest first
abbrev pub Fails : Type 0
Fails = List (Text × List ℕ)

-- `t > cutoff`, with `cutoff = now - WINDOW`
abbrev pub is_live : ℕ → ℕ → Bool
is_live now t = ltb now (t + window)

-- the failures that are not aged
abbrev pub live : ℕ → List ℕ → List ℕ
live now = select (is_live now)

-- `v[-1]`
unfoldable pub last : List ℕ → Option ℕ
last [] = none
last (t ∷ []) = some t
last (t ∷ u ∷ ts) = last (u ∷ ts)

-- `not v or v[-1] <= cutoff`, negated
unfoldable pub is_fresh : ℕ → List ℕ → Bool
unfolding last
is_fresh now ts = elim (last ts) [ none ↦ false | some t ↦ is_live now t ]

unfoldable pub sweep_locked : ℕ → Fails → Fails
unfolding is_fresh
sweep_locked now = select (λ row. is_fresh now row.1)

abbrev get_or_nil : Option (List ℕ) → List ℕ
get_or_nil none = []
get_or_nil (some ts) = ts

-- `_fails.get(ip, [])`
unfoldable pub fails_of : Text → Fails → List ℕ
fails_of ip s = get_or_nil (get ip s)

-- `if fails: _fails[ip] = fails` and its `else`
store : Text → List ℕ → Fails → Fails
store ip [] s = pop ip s
store ip (t ∷ ts) s = put ip (t ∷ ts) s

unfoldable pub recent_locked : ℕ → Text → Fails → Fails × List ℕ
unfolding store
recent_locked now ip s = let fails = live now (fails_of ip s) in (store ip fails s, fails)

unfoldable pub too_many : ℕ → Option Text → Fails → Fails × Bool
unfolding recent_locked
too_many now none s = (s, false)
too_many now (some []) s = (s, false)
too_many now (some (c ∷ ip)) s =
    let (s', fails) = recent_locked now (c ∷ ip) s in (s', leb max (length fails))

unfoldable pub guard : ℕ → Option Text → Fails → Fails × Result (Unit {0})
guard now ip s =
    let (s', throttled) = too_many now ip s in
    (s', if throttled then raise 429 too_many_attempts else ok tt)

-- `_fails.setdefault(ip, []).append(now)`
unfoldable pub append_fail : ℕ → Text → Fails → Fails
append_fail now ip s = put ip (fails_of ip s ++ (now ∷ [])) s

unfoldable pub record_fail : ℕ → Option Text → Fails → Fails
unfolding append_fail
record_fail now none s = s
record_fail now (some []) s = s
record_fail now (some (c ∷ ip)) s =
    let swept = sweep_locked now s in
    if leb max_ips (length s)
    then (if leb max_ips (length swept) then swept else append_fail now (c ∷ ip) swept)
    else append_fail now (c ∷ ip) s

unfoldable pub clear : Option Text → Fails → Fails
clear none s = s
clear (some []) s = s
clear (some (c ∷ ip)) s = pop (c ∷ ip) s
