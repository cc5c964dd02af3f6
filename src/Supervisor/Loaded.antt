-- ===== src/Supervisor/Loaded.antt =====
-- rctunnel-panel/agent/rctunnel_agent.py: what runs after `_apply_config` sent `applied`.
use rc_tunnel.Base.{
  ℕ, ◌≡◌, refl, ◌∙◌, Bool, true, false, not, Option, none, some, Text, option_eq, Bool-cases, inl,
  inr, arith,
}
use rc_tunnel.Protocol.{ConfigPayload}
use rc_tunnel.Supervisor.Render.{RctcConfig, Paths, render_rctc}
use rc_tunnel.Supervisor.Engine.{
  Process, Engine, is_running, shutdown, start_engine, restart_engine, reload_engine, ensure_rctc,
  sync_engine, note_generation, apply_config, told,
}
use rc_tunnel.Supervisor.Applied.{Synced, SyncedWith, ensure_rctc-proc, apply_config-Synced}

-- an engine that runs, and has read this rctc.json
abbrev pub Runs : Text → Option Process → Type 0
Runs json proc = (p : Process) × (proc ≡ some p) × (p.running ≡ true) × (p.loaded ≡ some json)

SyncedWith-Runs :
    (json : Text) (file : Option Text) (proc : Option Process)
    → SyncedWith file proc
    → file ≡ some json
    → is_running proc ≡ true
    → Runs json proc
unfolding is_running
SyncedWith-Runs json file none s same runs = absurd (cc)
SyncedWith-Runs json file (some p) s same runs = (p, refl, runs, s runs ∙ same)

module _ (fetch : Text → Option Text) (sha256 : Text → Text) (can_start : Text → Bool)
    (machine master_url target : Text) where
  abbrev started : Engine → Engine × Bool
  started = start_engine fetch sha256 can_start machine master_url target

  start_engine-running :
      (e : Engine)
      → (started e).1 ≡ true
      → ((started e).0.rctc_json ≡ e.rctc_json) × (is_running (started e).0.proc ≡ true)
  unfolding start_engine is_running
  start_engine-running e h = elim (Bool-cases (can_start e.rctc_bin)) [
    | inl t ↦ rw t (refl, refl)
    | inr f ↦ absurd (ground arith)
  ]

  abbrev restarted : Engine → Engine × Bool
  restarted = restart_engine fetch sha256 can_start machine master_url target

  restart_engine-running :
      (e : Engine)
      → (restarted e).1 ≡ true
      → ((restarted e).0.rctc_json ≡ e.rctc_json) × (is_running (restarted e).0.proc ≡ true)
  unfolding restart_engine shutdown
  restart_engine-running e h =
      let ready = ensure_rctc fetch sha256 can_start machine master_url target (shutdown e) in
      let (json, runs) = start_engine-running ready h in
      (
        json ∙ (ensure_rctc-proc fetch sha256 can_start machine master_url target (shutdown e)).1,
        runs,
      )

  told-running :
      (json : Option Text) (p : Option Process)
      → is_running p ≡ true
      → is_running (told json p) ≡ true
  unfolding is_running
  told-running json none h = h
  told-running json (some p) h = h

  abbrev synced : Bool → Bool → Engine → Engine × Bool
  synced = sync_engine fetch sha256 can_start machine master_url target

  sync_engine-running :
      (signalled changed : Bool) (e : Engine)
      → (synced signalled changed e).1 ≡ true
      → ((synced signalled changed e).0.rctc_json ≡ e.rctc_json)
        × (is_running (synced signalled changed e).0.proc ≡ true)
  unfolding sync_engine reload_engine
  sync_engine-running signalled changed e h = elim (Bool-cases (is_running e.proc)) [
    | inr idle ↦ rw (sync_engine, idle) (restart_engine-running e (ground arith))
    | inl busy ↦ elim (Bool-cases changed) [
      | inr same ↦ rw (sync_engine, busy, same) (refl, busy)
      | inl new ↦ elim (Bool-cases signalled) [
        | inl t ↦
            rw (sync_engine, busy, new, reload_engine, t)
              (refl, told-running e.rctc_json e.proc busy)
        | inr f ↦
            rw (sync_engine, busy, new, reload_engine, f) (restart_engine-running e (ground arith))
      ]
    ]
  ]

  module _ (dumps : RctcConfig → Text) (paths : Paths) where
    abbrev applied : Text → Bool → ConfigPayload → Engine → Engine × Bool
    applied = apply_config fetch sha256 can_start machine master_url target dumps paths

    note_generation-running :
        (gen : ℕ) (r : Engine × Bool)
        → (note_generation gen r).1 ≡ true
        → (r.1 ≡ true)
          × ((note_generation gen r).0.proc ≡ r.0.proc)
          × ((note_generation gen r).0.rctc_json ≡ r.0.rctc_json)
    note_generation-running gen (e, true) h = (refl, refl, refl)
    note_generation-running gen (e, false) h = absurd (cc)

    -- When a configuration is answered with `applied`, an engine runs that has read the rctc.json
    -- rendered from this configuration, be it newly started, told to read it again, or left alone
    -- since nothing changed. Before, an engine that ran had read the rctc.json that was there.
    pub apply_config-Runs :
        (detected : Text) (signalled : Bool) (msg : ConfigPayload) (e : Engine)
        → Synced e
        → (applied detected signalled msg e).1 ≡ true
        → Runs (dumps (render_rctc paths detected msg)) (applied detected signalled msg e).0.proc
    unfolding apply_config
    apply_config-Runs detected signalled msg e s sent =
        let cfg = dumps (render_rctc paths detected msg) in
        let changed = not (option_eq e.rctc_json (some cfg)) in
        let r = synced signalled changed (record e { rctc_json = some cfg }) in
        let (fine, proc, json) = note_generation-running msg.generation r sent in
        let (kept, runs) =
          sync_engine-running signalled changed (record e { rctc_json = some cfg }) fine in
        SyncedWith-Runs cfg (applied detected signalled msg e).0.rctc_json
          (applied detected signalled msg e).0.proc
          (apply_config-Synced fetch sha256 can_start machine master_url target dumps paths detected
            signalled msg e s)
          (json ∙ kept) (rw proc runs)
