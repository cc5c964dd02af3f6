-- ===== src/Supervisor/Engine.antt =====
-- rctunnel-panel/agent/rctunnel_agent.py: the engine process of an agent, `_ensure_rctc`,
-- `_restart_engine`, `_reload_engine`, `_watchdog`, `_apply_config` and `shutdown`. A process that
-- runs has read rctc.json when it started, or when it was last told to. What is outside is a
-- parameter: the download, the hash, JSON's printer, and whether a program can be started. What
-- the source raises leaves the state as it was at that point.
use rc_tunnel.Base.{
  ℕ, Bool, true, false, not, ◌&&◌, Option, none, some, List, [], ◌∷◌, ◌++◌, Text, codes, text_eq,
  option_eq, lower, strip, if◌then◌else◌,
}
use rc_tunnel.Base.Dict.{get, text_key}
use rc_tunnel.Protocol.{ConfigPayload}
use rc_tunnel.Supervisor.Render.{RctcConfig, Paths, render_rctc}
use rc_tunnel.Supervisor.Ota.{Files, agent_version, trusted}

-- the machines that a build is named after; every other one gets amd64's
abbrev pub builds : List (Text × Text)
builds =
    (codes "x86_64", codes "amd64")
    ∷ (codes "amd64", codes "amd64")
    ∷ (codes "aarch64", codes "arm64")
    ∷ (codes "arm64", codes "arm64")
    ∷ (codes "armv7l", codes "arm")
    ∷ (codes "armv6l", codes "arm")
    ∷ (codes "armhf", codes "arm")
    ∷ (codes "arm", codes "arm")
    ∷ (codes "i386", codes "386")
    ∷ (codes "i686", codes "386")
    ∷ []

abbrev pub or_amd64 : Option Text → Text
or_amd64 none = codes "amd64"
or_amd64 (some a) = a

unfoldable pub arch_of : Text → Text
arch_of machine = or_amd64 (get (lower machine) builds)

unfoldable pub artifact_name : Text → Text
unfolding arch_of
artifact_name machine = codes "rctc-" ++ arch_of machine

-- a started program, and what it has read of rctc.json
pub record Process : Type 0 where
  pub running : Bool
  pub program : Text
  pub loaded : Option Text

pub record Engine : Type 0 where
  pub rctc : Option Text
  pub rctc_version : Option Text
  pub rctc_json : Option Text
  pub rctc_bin : Text
  pub artifacts : Files
  pub proc : Option Process
  pub last_generation : Option ℕ

-- what happens to the engine of an agent: a message with a configuration, at an address of the host
-- and with whether a signal can be sent; a round of the watchdog; the process ends by itself; the
-- agent stops it; the hashes of a welcome
pub data Turn : Type 0 where
  applies : Text → Bool → ConfigPayload → Turn
  watches exits closes : Turn
  welcomes : Files → Turn

-- `self.proc is not None and self.proc.poll() is None`
unfoldable pub is_running : Option Process → Bool
is_running none = false
is_running (some p) = p.running

abbrev pub is_there : Option Text → Bool
is_there none = false
is_there (some s) = true

-- `marker.read_text().strip() if marker.exists() else ""`
abbrev pub marker_text : Option Text → Text
marker_text none = []
marker_text (some s) = strip s

-- `terminate`, and `kill` if that is not enough
abbrev pub stopped : Option Process → Option Process
stopped none = none
stopped (some p) = some (record p { running = false })

unfoldable pub shutdown : Engine → Engine
shutdown e = record e { proc = stopped e.proc }

-- the signal: rctc.json is read again
abbrev pub told : Option Text → Option Process → Option Process
told json none = none
told json (some p) = some (record p { loaded = json })

-- what follows if nothing was raised
abbrev pub note_generation : ℕ → Engine × Bool → Engine × Bool
note_generation gen (e, true) = (record e { last_generation = some gen }, true)
note_generation gen (e, false) = (e, false)

module _ (fetch : Text → Option Text) (sha256 : Text → Text) (can_start : Text → Bool)
    (machine master_url target : Text) where
  -- the download, if its hash is the trusted one
  unfoldable pub verified_rctc : Files → Option Text
  verified_rctc artifacts = elim (trusted (get (artifact_name machine) artifacts)) [
    | none ↦ none
    | some want ↦ elim (fetch (master_url ++ (codes "/dl/" ++ artifact_name machine))) [
      | none ↦ none
      | some bytes ↦ if text_eq (sha256 bytes) want then some bytes else none
    ]
  ]

  unfoldable pub ensure_rctc : Engine → Engine
  unfolding verified_rctc
  ensure_rctc e =
      if is_there e.rctc && text_eq (marker_text e.rctc_version) agent_version
      then record e { rctc_bin = target }
      else elim (verified_rctc e.artifacts) [
        | none ↦ record e { rctc_bin = if is_there e.rctc then target else e.rctc_bin }
        | some bytes ↦ record e {
          rctc = some bytes;
          rctc_version = some agent_version;
          rctc_bin = target;
        }
      ]

  -- `Popen`, which raises when the program is not there; the new process reads rctc.json
  unfoldable pub start_engine : Engine → Engine × Bool
  start_engine e =
      if can_start e.rctc_bin
      then (
        record e {
          proc = some (record { running = true; program = e.rctc_bin; loaded = e.rctc_json });
        },
        true,
      )
      else (e, false)

  -- the state, and whether nothing was raised
  unfoldable pub restart_engine : Engine → Engine × Bool
  unfolding start_engine ensure_rctc shutdown
  restart_engine e = start_engine (ensure_rctc (shutdown e))

  -- with whether the signal could be sent
  unfoldable pub reload_engine : Bool → Engine → Engine × Bool
  unfolding restart_engine
  reload_engine signalled e =
      if signalled then (record e { proc = told e.rctc_json e.proc }, true) else restart_engine e

  -- one round of the loop
  unfoldable pub watchdog : Engine → Engine
  unfolding restart_engine is_running
  watchdog e = elim e.proc [
    | none ↦ e
    | some p ↦ if not p.running && is_there e.rctc_json then (restart_engine e).0 else e
  ]

  -- under the lock, after rctc.json is written
  unfoldable pub sync_engine : Bool → Bool → Engine → Engine × Bool
  unfolding restart_engine reload_engine is_running
  sync_engine signalled changed e =
      if not (is_running e.proc)
      then restart_engine e
      else if changed
      then reload_engine signalled e
      else (e, true)

  module _ (dumps : RctcConfig → Text) (paths : Paths) where
    -- the state, and whether `applied` is sent
    unfoldable pub apply_config : Text → Bool → ConfigPayload → Engine → Engine × Bool
    unfolding sync_engine
    apply_config detected signalled msg e =
        let cfg = dumps (render_rctc paths detected msg) in
        let changed = not (option_eq e.rctc_json (some cfg)) in
        note_generation msg.generation
          (sync_engine signalled changed (record e { rctc_json = some cfg }))

    unfoldable pub turn : Turn → Engine → Engine
    unfolding apply_config watchdog shutdown
    turn (applies detected signalled msg) e = (apply_config detected signalled msg e).0
    turn watches e = watchdog e
    turn exits e = record e { proc = stopped e.proc }
    turn closes e = shutdown e
    turn (welcomes artifacts) e = record e { artifacts = artifacts }

    unfoldable pub turns : List Turn → Engine → Engine
    unfolding turn
    turns [] e = e
    turns (t ∷ ts) e = turns ts (turn t e)
