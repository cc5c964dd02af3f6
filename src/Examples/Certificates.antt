-- ===== src/Examples/Certificates.antt =====
-- Enrollments, certificates, sessions of agents and their traffic.
use rc_tunnel.Base.{
  ℕ, ◌+◌, ◌≤◌, ◌≡◌, refl, true, false, Bool, none, some, List, [], ◌∷◌, codes, Text, Option, All,
  arith, ok, Result, text_eq, text_member, str, ◌||◌,
}
use rc_tunnel.Models.{Panel, Agent, Tunnel, get_agent, set_agent}
use rc_tunnel.Agents.{Pending, reissue_token, reissued}
use rc_tunnel.Agents.Tokens.{
  AgentRequest, reissues, finishes, enrollments, issued, enrollments-le-issued,
}
use rc_tunnel.Control.{admit, renew_cert, repinned}
use rc_tunnel.Control.Handoff.{
  lets_in, reissue_token-lets_in, renew_cert-lets_in, admit-retires, admit-revokes,
}
use rc_tunnel.Manager.{Plane, register, unregister, is_online}
use rc_tunnel.Manager.Presence.{
  step, Event, opens, reports, ends, run, AllCurrent, Synced, run-Synced,
}
use rc_tunnel.Traffic.{StatEntry, poll_once}
use rc_tunnel.Traffic.Quota.{Settled, poll_once-Settled}
use rc_tunnel.Examples.Data.{panel, box, root}

abbrev attempt : Pending
attempt = record { agent_id = 1; serial = codes "8"; os = none; arch = none }

-- two enrollments in a row after one reissue
abbrev history : List AgentRequest
history = reissues root 1 (codes "fresh") ∷ finishes attempt none 10 ∷ finishes attempt none 11 ∷ []

enrollments-le-issued_example : enrollments 1 (panel, []) history ≤ 0 + 1
unfolding issued rc_tunnel.Agents.Tokens.issues rc_tunnel.Agents.Tokens.step reissue_token
    rc_tunnel.Agents.found rc_tunnel.Deps.check_team_access
enrollments-le-issued_example = enrollments-le-issued 1 (panel, []) history

abbrev reissued_panel : Panel
reissued_panel = record panel {
  agents =
      record box {
        agent_token = codes "fresh";
        token_used = false;
        cert_serial = some (codes "revoked");
        prev_cert_serial = none;
      }
      ∷ [];
  revoked_serials = codes "7" ∷ [];
}

reissued_here : reissue_token root 1 (codes "fresh") panel ≡ ok reissued_panel
unfolding reissue_token rc_tunnel.Agents.found rc_tunnel.Deps.check_team_access
    rc_tunnel.Models.revoke_serial reissued
reissued_here = refl

reissue_token-lets_in_example : lets_in 1 7 reissued_panel ≡ false
reissue_token-lets_in_example =
    reissue_token-lets_in root 1 7 (codes "fresh") panel reissued_panel reissued_here

-- the agent after a renewal
abbrev renewed_box : Agent
renewed_box = record box { cert_serial = some (codes "8"); prev_cert_serial = some (codes "7") }

abbrev renewed_panel : Panel
renewed_panel = record panel { agents = renewed_box ∷ [] }

-- every CSR is signed, with the serial 8
abbrev eight : Text → Text → Option Text
eight csr cn = some (codes "8")

renewed_here : renew_cert eight 1 (codes "csr") panel ≡ (renewed_panel, some (codes "8"))
unfolding renew_cert repinned
renewed_here = refl

renew_cert-lets_in_example :
    lets_in 1 7 renewed_panel ≡ text_eq (str 7) (codes "8") || text_eq (str 7) (codes "7")
renew_cert-lets_in_example =
    renew_cert-lets_in eight 1 (codes "csr") [] [] 7 b'8' b'7' panel renewed_panel box refl refl
      refl renewed_here

shown_eight : str 8 ≡ codes "8"
unfolding str
shown_eight = refl

admit-retires_example :
    lets_in 1 7 (admit (some 1) (some 8) renewed_panel).0 ≡ text_eq (str 7) (codes "8")
admit-retires_example = admit-retires 1 8 7 b'8' [] renewed_panel renewed_box refl refl shown_eight

-- with a full disk
abbrev full_panel : Panel
full_panel = record renewed_panel { appends = false ∷ [] }

admit-revokes_example :
    let p' = (admit (some 1) (some 8) full_panel).0 in
    (p'.revoked_serials ≡ [])
    × (get_agent p' 1 ≡ some (record renewed_box { prev_cert_serial = none }))
admit-revokes_example =
    admit-revokes 1 8 b'8' b'7' [] [] full_panel renewed_box refl refl refl refl shown_eight

abbrev idle : Plane
idle = record { panel = panel; conns = [] }

-- a session, a newer one, and the end of the older
abbrev sessions : List (ℕ × Event)
sessions =
    (1, opens 1 5) ∷ (2, reports 1 5) ∷ (3, opens 1 6) ∷ (4, ends 1 5) ∷ (5, reports 1 6) ∷ []

sessions-AllCurrent : AllCurrent idle sessions
unfolding AllCurrent rc_tunnel.Base.Dict.get step register rc_tunnel.Base.Dict.put unregister
    rc_tunnel.Manager.touch
sessions-AllCurrent = (refl, (refl, (refl, (refl, (refl, tt)))))

idle-Synced : Synced 1 idle
unfolding is_online rc_tunnel.Base.Dict.get
idle-Synced b h = cc

run-Synced_example : Synced 1 (run idle sessions)
run-Synced_example = run-Synced 1 idle sessions sessions-AllCurrent idle-Synced

abbrev stats : List StatEntry
stats = record { cn = codes "agent.1"; name = codes "t1"; bytes_in = 200; bytes_out = 0 } ∷ []

poll_once-Settled_example : Settled stats panel (poll_once stats panel)
poll_once-Settled_example = poll_once-Settled stats panel
