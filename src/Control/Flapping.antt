-- ===== src/Control/Flapping.antt =====
-- rctunnel-panel/rctunnel_panel/control/server.py: the alert on an agent that reconnects again and
-- again. Times are `time.monotonic()` in seconds.
use rc_tunnel.Base.{
  ℕ, ◌+◌, ◌≤◌, ◌≡◌, refl, Bool, true, false, ◌&&◌, Option, none, some, List, [], ◌∷◌, ◌++◌, All,
  length, select, ltb, arith, if◌then◌else◌, ◌==◌,
}
use rc_tunnel.Base.Dict.{get, put, get-put, number_key}

abbrev pub flap_window : ℕ
flap_window = 120

abbrev pub flap_max : ℕ
flap_max = 6

abbrev pub flap_alert_cooldown : ℕ
flap_alert_cooldown = 600

-- `_flap_hist` and `_flap_last_alert`
pub record Flaps : Type 0 where
  pub hist : List (ℕ × List ℕ)
  pub last_alert : List (ℕ × ℕ)

abbrev pub times_or_nil : Option (List ℕ) → List ℕ
times_or_nil none = []
times_or_nil (some ts) = ts

abbrev pub time_or_zero : Option ℕ → ℕ
time_or_zero none = 0
time_or_zero (some t) = t

-- `h` after the call
abbrev pub recent : ℕ → ℕ → Flaps → List ℕ
recent now id f =
    select (λ t. ltb now (t + flap_window)) (times_or_nil (get id f.hist) ++ (now ∷ []))

unfoldable pub is_flapping : ℕ → ℕ → Flaps → Bool
is_flapping now id f =
    ltb flap_max (length (recent now id f))
    && ltb (time_or_zero (get id f.last_alert) + flap_alert_cooldown) now

-- the new state, and whether an alert is raised
unfoldable pub note_connect : ℕ → ℕ → Flaps → Flaps × Bool
note_connect now id f =
    let alert = is_flapping now id f in
    (
      record {
        hist = put id (recent now id f) f.hist;
        last_alert = if alert then put id now f.last_alert else f.last_alert;
      },
      alert,
    )

-- the alerts of one agent in a history of connections, each a time and an agent
unfoldable pub alerts : ℕ → Flaps → List (ℕ × ℕ) → ℕ
alerts k f [] = 0
alerts k f ((t, id) ∷ calls) =
    let rest = alerts k (note_connect t id f).0 calls in
    (if id == k && (note_connect t id f).1 then 1 else 0) + rest

kept :
    (k now t id : ℕ) (f : Flaps)
    → get k f.last_alert ≡ some now
    → t ≤ now + flap_alert_cooldown
    → (get k (note_connect t id f).0.last_alert ≡ some now)
      × ((id == k && (note_connect t id f).1) ≡ false)
unfolding note_connect is_flapping
kept k now t id f h st = (ground (arith, get-put id k t f.last_alert), ground arith)

quiet :
    (k now : ℕ) (f : Flaps) (calls : List (ℕ × ℕ))
    → get k f.last_alert ≡ some now
    → All (λ c. c.0 ≤ now + flap_alert_cooldown) calls
    → alerts k f calls ≡ 0
unfolding alerts
quiet k now f [] h soon = refl
quiet k now f ((t, id) ∷ calls) h (st, soon) =
    let (same, none_now) = kept k now t id f h st in
    rw none_now (omega (arith, quiet k now (note_connect t id f).0 calls same soon))

started :
    (k now : ℕ) (f : Flaps)
    → (note_connect now k f).1 ≡ true
    → get k (note_connect now k f).0.last_alert ≡ some now
unfolding note_connect
started k now f h = ground (arith, get-put k k now f.last_alert)

-- After an alert on an agent no other alert on it is raised within `_FLAP_ALERT_COOLDOWN` seconds,
-- however often it and other agents connect.
pub alerts-note_connect :
    (k now : ℕ) (f : Flaps) (calls : List (ℕ × ℕ))
    → (note_connect now k f).1 ≡ true
    → All (λ c. c.0 ≤ now + flap_alert_cooldown) calls
    → alerts k (note_connect now k f).0 calls ≡ 0
alerts-note_connect k now f calls h soon =
    quiet k now (note_connect now k f).0 calls (started k now f h) soon
