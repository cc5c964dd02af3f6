-- ===== src/Manager/Presence.antt =====
-- rctunnel-panel/rctunnel_panel/control/manager.py: what the status of an agent says about its
-- connections, in a history of sessions that start, report and end.
use rc_tunnel.Base.{
  ℕ, ◌≡◌, Bool, true, false, Option, none, some, List, [], ◌∷◌, find, update, arith, ◌==◌, both_eq,
  ==-refl, if◌then◌else◌,
}
use rc_tunnel.Base.Dict.{get, get-put, get-pop, number_key}
use rc_tunnel.Models.{Panel, Agent, AgentStatus, online, offline, get_agent}
use rc_tunnel.Manager.{Plane, set_status, register, unregister, touch, is_online}

-- what a session calls: an agent's id and the connection
pub data Event : Type 0 where
  opens reports ends : ℕ → ℕ → Event

unfoldable pub step : ℕ → Plane → Event → Plane
step now w (opens id conn) = register id conn now w
step now w (reports id conn) = touch id now w
step now w (ends id conn) = unregister id conn now w

-- a session reports only while its connection is the newest of its agent
abbrev pub is_current : Plane → Event → Bool
is_current w (reports id conn) = both_eq (get id w.conns) (some conn)
is_current w _ = true

unfoldable pub run : Plane → List (ℕ × Event) → Plane
run w [] = w
run w ((now, e) ∷ es) = run (step now w e) es

unfoldable pub AllCurrent : Plane → List (ℕ × Event) → Type 0
AllCurrent w [] = Unit
AllCurrent w ((now, e) ∷ es) = (is_current w e ≡ true) × AllCurrent (step now w e) es

abbrev pub is_up : AgentStatus → Bool
is_up online = true
is_up offline = false

abbrev up_of : Option Agent → Option Bool
up_of none = none
up_of (some a) = some (is_up a.status)

-- whether the status of an agent is `online`, if there is such an agent
abbrev pub shown : ℕ → Panel → Option Bool
shown k p = up_of (get_agent p k)

-- The status of an agent is `online` exactly if the agent is connected.
abbrev pub Synced : ℕ → Plane → Type 0
Synced k w = (b : Bool) → shown k w.panel ≡ some b → b ≡ is_online k w

abbrev overwritten : Option Bool → Bool → Option Bool
overwritten none b = none
overwritten (some a) b = some b

shown-set_status :
    (id k : ℕ) (st : AgentStatus) (now : ℕ) (p : Panel)
    → shown k (set_status id st now p)
      ≡ (if id == k then overwritten (shown k p) (is_up st) else shown k p)
unfolding set_status
shown-set_status id k st now p = rows p.agents
  where
    rows :
        (xs : List Agent)
        → up_of (
            find
              (λ a. a.id == k)
              (update (λ a. a.id == id) (λ a. record a { status = st; last_seen = some now }) xs))
          ≡ (if id == k
              then overwritten (up_of (find (λ a. a.id == k) xs)) (is_up st)
              else up_of (find (λ a. a.id == k) xs))
    rows [] = ground arith
    rows (a ∷ xs) = ground (arith, rows xs)

step-Synced :
    (k now : ℕ) (w : Plane) (e : Event)
    → is_current w e ≡ true
    → Synced k w
    → Synced k (step now w e)
unfolding step register unregister touch is_online
step-Synced k now w (opens id conn) c h b at_b =
    ground (arith, h b, shown-set_status id k online now w.panel, get-put id k conn w.conns)
step-Synced k now w (reports id conn) c h b at_b =
    ground (arith, h b, shown-set_status id k online now w.panel)
step-Synced k now w (ends id conn) c h b at_b =
    ground (arith, h b, shown-set_status id k offline now w.panel, get-pop id k w.conns)

-- In a history of sessions, in which an older session may end at any time after a newer one of the
-- same agent began, but reports only while it is the newest, the status of an agent stays `online`
-- exactly while it has a registered connection, if that is so at the start.
pub run-Synced :
    (k : ℕ) (w : Plane) (es : List (ℕ × Event)) → AllCurrent w es → Synced k w → Synced k (run w es)
unfolding run AllCurrent
run-Synced k w [] c h = h
run-Synced k w ((now, e) ∷ es) (ce, c) h =
    run-Synced k (step now w e) es c (step-Synced k now w e ce h)

-- The end of a session that a newer one has just replaced changes nothing: the newer one stays
-- registered, and the agent stays online.
pub unregister-superseded :
    (id old new now later : ℕ) (w : Plane)
    → (old == new) ≡ false
    → unregister id old later (register id new now w) ≡ register id new now w
unfolding unregister register
unregister-superseded id old new now later w h =
    rw (unregister, get-put id id new w.conns, ==-refl id) (ground arith)
