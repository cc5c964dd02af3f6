-- ===== src/Traffic/Billing.antt =====
-- rctunnel-panel/rctunnel_panel/control/traffic.py: what a tunnel is billed.
use rc_tunnel.Base.{ℕ, ◌+◌, ◌≤◌, ◌≡◌, refl, false, List, [], ◌∷◌, arith, Text, text_eq}
use rc_tunnel.Base.Dict.{put, get-put}
use rc_tunnel.Models.{Tunnel}
use rc_tunnel.Protocol.{agent_cn}
use rc_tunnel.Traffic.{Traffic, pair_key, delta, bill, key_of, account}

-- A sample that stands under the name of another agent than the tunnel's own bills nothing to the
-- tunnel, whatever proxy name it carries.
pub account-others :
    (t : Tunnel) (cn name : Text) (sample : ℕ × ℕ) (traffic : Traffic)
    → text_eq cn (agent_cn t.agent_id) ≡ false
    → account (put (cn, name) sample traffic) t ≡ account traffic t
unfolding account
account-others t cn name sample traffic other =
    rw (account, get-put (cn, name) (key_of t) sample traffic, other) refl

-- the samples of one tunnel, poll by poll
unfoldable pub bill_all : List (ℕ × ℕ) → Tunnel → Tunnel
bill_all [] t = t
bill_all (s ∷ ss) t = bill_all ss (bill s t)

-- a counter that only grows
abbrev pub Growing : ℕ → ℕ → List (ℕ × ℕ) → Type 0
Growing i o [] = Unit
Growing i o ((ti, to) ∷ ss) = (i ≤ ti) × (o ≤ to) × Growing ti to ss

delta-grown : (now last : ℕ) → last ≤ now → delta now last + last ≡ now
unfolding delta
delta-grown now last h = ground arith

-- Over any number of polls in which the engine's counters do not go back, a tunnel is billed
-- exactly what the counters grew by: no byte twice and none left out.
pub bill_all-Growing :
    (ss : List (ℕ × ℕ)) (t : Tunnel)
    → Growing t.last_today_in t.last_today_out ss
    → ((bill_all ss t).bytes_in + t.last_today_in ≡ t.bytes_in + (bill_all ss t).last_today_in)
      × ((bill_all ss t).bytes_out + t.last_today_out
          ≡ t.bytes_out + (bill_all ss t).last_today_out)
unfolding bill_all bill
bill_all-Growing [] t h = (refl, refl)
bill_all-Growing ((ti, to) ∷ ss) t (hi, ho, h) =
    let (ri, ro) = bill_all-Growing ss (bill (ti, to) t) h in
    (
      omega (arith, delta-grown ti t.last_today_in hi),
      omega (arith, delta-grown to t.last_today_out ho),
    )
