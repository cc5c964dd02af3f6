-- ===== src/Control/Session.antt =====
-- rctunnel-panel/rctunnel_panel/control/server.py: the loop of `_handle` over a session's messages,
-- each with the clock at its arrival, in whole seconds.
use rc_tunnel.Base.{
  ℕ, ◌+◌, ◌-◌, ◌*◌, ◌≤◌, ◌≡◌, ◌⊎◌, refl, false, Option, none, some, List, [], ◌∷◌, length, ltb,
  arith, Text, Bool-cases, inl, inr,
}
use rc_tunnel.Manager.{Plane}
use rc_tunnel.Models.{Panel}
use rc_tunnel.Control.{
  Message, hello, heartbeat, applied, renew, other, on_message, renew_cert, connect, disconnect,
  Admission, admitted, closed,
}

module _ (ip_address : Text → Option Text) (sign : Text → Text → Option Text) where
  -- the serials of the certificates that are sent, latest first
  abbrev pub noted : Option Text → List Text → List Text
  noted none serials = serials
  noted (some s) serials = s ∷ serials

  -- the state, the time of the last renewal, and the serials
  unfoldable pub messages : ℕ → ℕ → List (ℕ × Message) → Plane → List Text → Plane × ℕ × List Text
  unfolding on_message
  messages id last_renew [] w serials = (w, last_renew, serials)
  messages id last_renew ((now, msg) ∷ later) w serials =
      let (w', renewed, answer) = on_message ip_address sign id now last_renew msg w in
      messages id renewed later w' (noted answer serials)

  -- the session of an agent that is let in, until it ends
  unfoldable pub serve : ℕ → ℕ → List (ℕ × Message) → Plane × Admission → Plane × List Text
  unfolding messages disconnect
  serve conn end_ msgs (w, closed why) = (w, [])
  serve conn end_ msgs (w, admitted a) =
      let (last, renewed, serials) = messages a.id 0 msgs w [] in
      (disconnect a.id conn end_ last, serials)

  -- `_handle`: the state that it leaves, and the serials that it sent
  unfoldable pub session :
      Option ℕ → Option ℕ → ℕ → ℕ → ℕ → List (ℕ × Message) → Plane → Plane × List Text
  unfolding serve connect
  session peer serial conn start end_ msgs w =
      serve conn end_ msgs (connect peer serial conn start w)

  -- the certificates sent since `start`, and the time of the last request that was served
  abbrev Spaced : ℕ → ℕ → List Text → Type 0
  Spaced start renewed serials = (length serials ≡ 0) ⊎ (length serials * 60 + start ≤ renewed + 60)

  abbrev Steps : ℕ → ℕ → List Text → Plane × ℕ × Option Text → Type 0
  Steps start now serials (w, renewed, answer) =
      Spaced start renewed (noted answer serials) × (renewed ≤ now)

  renew-Steps :
      (start now last_renew : ℕ) (serials : List Text) (r : Panel × Option Text) (w : Plane)
      → start ≤ now
      → last_renew ≤ now
      → ltb (now - last_renew) 60 ≡ false
      → Spaced start last_renew serials
      → Steps start now serials (record w { panel = r.0 }, now, r.1)
  renew-Steps start now last_renew serials (p, none) w a b c k = ground arith
  renew-Steps start now last_renew serials (p, some s) w a b c k = ground arith

  on_message-Steps :
      (id start now last_renew : ℕ) (msg : Message) (w : Plane) (serials : List Text)
      → start ≤ now
      → last_renew ≤ now
      → Spaced start last_renew serials
      → Steps start now serials (on_message ip_address sign id now last_renew msg w)
  unfolding on_message
  on_message-Steps id start now last_renew (hello m) w serials a b k = (k, b)
  on_message-Steps id start now last_renew (heartbeat d i) w serials a b k = (k, b)
  on_message-Steps id start now last_renew (applied d i) w serials a b k = (k, b)
  on_message-Steps id start now last_renew other w serials a b k = (k, b)
  on_message-Steps id start now last_renew (renew csr) w serials a b k =
      elim (Bool-cases (ltb (now - last_renew) 60)) [
        | inl e ↦ rw e (k, b)
        | inr e ↦
            rw e
              (renew-Steps start now last_renew serials (renew_cert sign id csr w.panel) w a b e k)
      ]

  -- the clock does not go back, and does not pass `end_`
  abbrev pub Clock : ℕ → ℕ → List (ℕ × Message) → Type 0
  Clock start end_ [] = start ≤ end_
  Clock start end_ ((now, msg) ∷ later) = (start ≤ now) × Clock now end_ later

  Clock-le :
      (start end_ : ℕ) (msgs : List (ℕ × Message))
      → Clock start end_ msgs
      → 0 * 60 + start ≤ end_ + 60
  Clock-le start end_ [] c = omega arith
  Clock-le start end_ ((now, msg) ∷ later) (c, cs) = omega (arith, Clock-le now end_ later cs)

  messages-Spaced :
      (id start clock end_ last_renew : ℕ) (msgs : List (ℕ × Message)) (w : Plane)
      (serials : List Text)
      → start ≤ clock
      → last_renew ≤ clock
      → Clock clock end_ msgs
      → Spaced start last_renew serials
      → length (messages id last_renew msgs w serials).2 * 60 + start ≤ end_ + 60
  unfolding messages
  messages-Spaced id start clock end_ last_renew [] w serials a b c k = ground arith
  messages-Spaced id start clock end_ last_renew ((now, msg) ∷ later) w serials a b (c, cs) k =
      let next = on_message ip_address sign id now last_renew msg w in
      let (k', b') : Steps start now serials next =
        on_message-Steps id start now last_renew msg w serials (omega arith) (omega arith) k in
      messages-Spaced id start now end_ next.1 later next.0 (noted next.2 serials) (omega arith) b'
        cs k'

  serve-le :
      (conn start end_ : ℕ) (msgs : List (ℕ × Message)) (r : Plane × Admission)
      → Clock start end_ msgs
      → length (serve conn end_ msgs r).1 * 60 + start ≤ end_ + 60
  unfolding serve
  serve-le conn start end_ msgs (w, closed why) c = Clock-le start end_ msgs c
  serve-le conn start end_ msgs (w, admitted a) c =
      messages-Spaced a.id start start end_ 0 msgs w [] (omega arith) (omega arith) c (inl refl)

  -- A session is sent at most one certificate for each minute that it lasts, and one more,
  -- whatever the messages. The clock does not go back between the messages.
  pub session-renewals-le :
      (peer serial : Option ℕ) (conn start end_ : ℕ) (msgs : List (ℕ × Message)) (w : Plane)
      → Clock start end_ msgs
      → length (session peer serial conn start end_ msgs w).1 * 60 + start ≤ end_ + 60
  unfolding session
  session-renewals-le peer serial conn start end_ msgs w c =
      serve-le conn start end_ msgs (connect peer serial conn start w) c
