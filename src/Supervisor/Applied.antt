-- ===== src/Supervisor/Applied.antt =====
-- rctunnel-panel/agent/rctunnel_agent.py: the engine that runs, against the rctc.json that stands
-- on the disk and the configuration that the panel sent.
use rc_tunnel.Base.{
  ℕ, ◌≡◌, refl, ap, sym, ◌∙◌, ◌⊎◌, inl, inr, Bool, true, false, not, ◌&&◌, Option, none, some, List,
  [], ◌∷◌, Text, text_eq, text_eq→eq, option_eq, Bool-cases, Option-cases, arith,
}
use rc_tunnel.Base.Dict.{get, text_key}
use rc_tunnel.Protocol.{ConfigPayload}
use rc_tunnel.Supervisor.Render.{RctcConfig, Paths, render_rctc}
use rc_tunnel.Supervisor.Ota.{Files, trusted, agent_version}
use rc_tunnel.Supervisor.Verified.{trusted-some}
use rc_tunnel.Supervisor.Engine.{
  Process, Engine, Turn, applies, watches, exits, closes, welcomes, turn, turns, is_running,
  is_there, stopped, shutdown, artifact_name, verified_rctc, ensure_rctc, start_engine,
  restart_engine, reload_engine, watchdog, sync_engine, note_generation, apply_config, told,
  marker_text,
}

-- an engine that runs has read the rctc.json that is there
abbrev pub SyncedWith : Option Text → Option Process → Type 0
SyncedWith json none = Unit
SyncedWith json (some p) = p.running ≡ true → p.loaded ≡ json

abbrev pub Synced : Engine → Type 0
Synced e = SyncedWith e.rctc_json e.proc

option_eq→eq : (a b : Option Text) → option_eq a b ≡ true → a ≡ b
option_eq→eq none none h = refl
option_eq→eq none (some b) h = cc
option_eq→eq (some a) none h = cc
option_eq→eq (some a) (some b) h = ap some (text_eq→eq a b h)

stopped-SyncedWith : (json : Option Text) (p : Option Process) → SyncedWith json (stopped p)
stopped-SyncedWith json none = tt
stopped-SyncedWith json (some p) = λ h. absurd (cc)

told-SyncedWith : (json : Option Text) (p : Option Process) → SyncedWith json (told json p)
told-SyncedWith json none = tt
told-SyncedWith json (some p) = λ runs. refl

module _ (fetch : Text → Option Text) (sha256 : Text → Text) (can_start : Text → Bool)
    (machine master_url target : Text) where
  abbrev ensured : Engine → Engine
  ensured = ensure_rctc fetch sha256 can_start machine master_url target

  abbrev restarted : Engine → Engine
  restarted e = (restart_engine fetch sha256 can_start machine master_url target e).0

  pub ensure_rctc-proc :
      (e : Engine) → ((ensured e).proc ≡ e.proc) × ((ensured e).rctc_json ≡ e.rctc_json)
  unfolding ensure_rctc
  ensure_rctc-proc e =
      elim (Bool-cases (is_there e.rctc && text_eq (marker_text e.rctc_version) agent_version)) [
        | inl have ↦ rw (ensure_rctc, have) (refl, refl)
        | inr lack ↦
            elim (Option-cases
              (verified_rctc fetch sha256 can_start machine master_url target e.artifacts)) [
                | inl f ↦ rw (ensure_rctc, lack, f) (refl, refl)
                | inr (bytes, f) ↦ rw (ensure_rctc, lack, f) (refl, refl)
              ]
      ]

  -- after a start: it runs and has read what is there, or the start failed and the old one is stopped
  start_engine-Synced :
      (e : Engine)
      → Synced e
      → Synced (start_engine fetch sha256 can_start machine master_url target e).0
  unfolding start_engine
  start_engine-Synced e s = elim (Bool-cases (can_start e.rctc_bin)) [
    | inl t ↦ rw (start_engine, t) (λ runs. refl)
    | inr f ↦ rw (start_engine, f) s
  ]

  restart_engine-Synced : (e : Engine) → Synced (restarted e)
  unfolding restart_engine shutdown
  restart_engine-Synced e =
      let (procs, files) = ensure_rctc-proc (shutdown e) in
      start_engine-Synced (ensured (shutdown e))
        (rw (procs, files) (stopped-SyncedWith e.rctc_json e.proc))

  reload_engine-Synced :
      (signalled : Bool) (e : Engine)
      → Synced (reload_engine fetch sha256 can_start machine master_url target signalled e).0
  unfolding reload_engine
  reload_engine-Synced true e = told-SyncedWith e.rctc_json e.proc
  reload_engine-Synced false e = restart_engine-Synced e

  sync_engine-Synced :
      (signalled changed : Bool) (e : Engine)
      → (changed ≡ false → Synced e)
      → Synced (sync_engine fetch sha256 can_start machine master_url target signalled changed e).0
  unfolding sync_engine
  sync_engine-Synced signalled changed e s = elim (Bool-cases (is_running e.proc)) [
    | inr idle ↦ rw (sync_engine, idle) (restart_engine-Synced e)
    | inl busy ↦ elim (Bool-cases changed) [
      | inl c ↦ rw (sync_engine, busy, c) (reload_engine-Synced signalled e)
      | inr c ↦ rw (sync_engine, busy, c) (s c)
    ]
  ]

  note_generation-Synced :
      (gen : ℕ) (r : Engine × Bool) → Synced r.0 → Synced (note_generation gen r).0
  note_generation-Synced gen (e, true) s = s
  note_generation-Synced gen (e, false) s = s

  watchdog-cases :
      (e : Engine)
      → (watchdog fetch sha256 can_start machine master_url target e ≡ e)
        ⊎ (watchdog fetch sha256 can_start machine master_url target e ≡ restarted e)
  unfolding watchdog
  watchdog-cases e = elim (Option-cases e.proc) [
    | inl f ↦ inl (ground arith)
    | inr (p, f) ↦ elim (Bool-cases (not p.running && is_there e.rctc_json)) [
      | inl c ↦ inr (ground arith)
      | inr c ↦ inl (ground arith)
    ]
  ]

  watchdog-Synced :
      (e : Engine) → Synced e → Synced (watchdog fetch sha256 can_start machine master_url target e)
  watchdog-Synced e s = elim (watchdog-cases e) [
    | inl same ↦ rw same s
    | inr again ↦ rw again (restart_engine-Synced e)
  ]

  verified_rctc-trusted :
      (artifacts : Files) (bytes : Text)
      → verified_rctc fetch sha256 can_start machine master_url target artifacts ≡ some bytes
      → get (artifact_name machine) artifacts ≡ some (sha256 bytes)
  verified_rctc-trusted artifacts bytes h =
      elim (Option-cases (trusted (get (artifact_name machine) artifacts))) [
        | inl f ↦ absurd (unfold verified_rctc in ground arith)
        | inr (want, f) ↦
            let same : text_eq (sha256 bytes) want ≡ true = unfold verified_rctc in ground arith in
            trusted-some (get (artifact_name machine) artifacts) want f
            ∙ ap some (sym (text_eq→eq (sha256 bytes) want same))
      ]

  -- Whether or not a download succeeds, the engine binary is afterwards what it was, or one with
  -- the hash that the panel gave for the build of this machine.
  pub ensure_rctc-trusted :
      (e : Engine)
      → ((ensured e).rctc ≡ e.rctc)
        ⊎ ((bytes : Text) × ((ensured e).rctc ≡ some bytes)
            × (get (artifact_name machine) e.artifacts ≡ some (sha256 bytes)))
  unfolding ensure_rctc
  ensure_rctc-trusted e =
      elim (Bool-cases (is_there e.rctc && text_eq (marker_text e.rctc_version) agent_version)) [
        | inl have ↦ rw (ensure_rctc, have) (inl refl)
        | inr lack ↦
            elim (Option-cases
              (verified_rctc fetch sha256 can_start machine master_url target e.artifacts)) [
                | inl f ↦ rw (ensure_rctc, lack, f) (inl refl)
                | inr (bytes, f) ↦
                    rw (ensure_rctc, lack, f)
                      (inr (bytes, refl, verified_rctc-trusted e.artifacts bytes f))
              ]
      ]

  module _ (dumps : RctcConfig → Text) (paths : Paths) where
    abbrev applied : Text → Bool → ConfigPayload → Engine → Engine × Bool
    applied = apply_config fetch sha256 can_start machine master_url target dumps paths

    pub apply_config-Synced :
        (detected : Text) (signalled : Bool) (msg : ConfigPayload) (e : Engine)
        → Synced e
        → Synced (applied detected signalled msg e).0
    unfolding apply_config
    apply_config-Synced detected signalled msg e s =
        let cfg = dumps (render_rctc paths detected msg) in
        let changed = not (option_eq e.rctc_json (some cfg)) in
        note_generation-Synced msg.generation _ (
          sync_engine-Synced signalled changed (record e { rctc_json = some cfg })
            (λ same. rw (← option_eq→eq e.rctc_json (some cfg) (ground arith)) s))

    turn-Synced :
        (t : Turn) (e : Engine)
        → Synced e
        → Synced (turn fetch sha256 can_start machine master_url target dumps paths t e)
    unfolding turn shutdown
    turn-Synced (applies detected signalled msg) e s =
        apply_config-Synced detected signalled msg e s
    turn-Synced watches e s = watchdog-Synced e s
    turn-Synced exits e s = stopped-SyncedWith e.rctc_json e.proc
    turn-Synced closes e s = stopped-SyncedWith e.rctc_json e.proc
    turn-Synced (welcomes artifacts) e s = s

    -- An engine that runs has read the rctc.json that is there, after any number of
    -- configurations, rounds of the watchdog, ends of the engine, stops and welcomes, with
    -- downloads, starts and signals that fail or not, if this holds before.
    pub turns-Synced :
        (ts : List Turn) (e : Engine)
        → Synced e
        → Synced (turns fetch sha256 can_start machine master_url target dumps paths ts e)
    unfolding turns
    turns-Synced [] e s = s
    turns-Synced (t ∷ ts) e s =
        turns-Synced ts (turn fetch sha256 can_start machine master_url target dumps paths t e)
          (turn-Synced t e s)
