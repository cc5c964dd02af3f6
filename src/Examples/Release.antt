-- ===== src/Examples/Release.antt =====
-- A release: what is published, what an agent makes of it, and what a rollback gives back. Downloads
-- have a hash that is their text after a `#`.
use rc_tunnel.Base.{
  zero, suc, ℕ, List, ◌≡◌, refl, true, false, Bool, none, some, Option, [], ◌∷◌, ◌++◌, codes, Text,
  arith, inl,
}
use rc_tunnel.Base.Dict.{get, text_key}
use rc_tunnel.Settings.{default_settings}
use rc_tunnel.Versions.{Upgrade, maybe_upgrade}
use rc_tunnel.Supervisor.Ota.{Files, Copies, Host, self_upgrade, agent_version, fetch_retry}
use rc_tunnel.Supervisor.Boot.{done, Disk, boot_guard}
use rc_tunnel.Supervisor.Undone.{boot_guard-self_upgrade}
use rc_tunnel.Publish.{Repo, publish, version_in}
use rc_tunnel.Publish.Upgraded.{publish-self_upgrade, agent_name, localip_name}

abbrev hash : Text → Text
hash s = b'#' ∷ s

abbrev compiles : Text → Bool
compiles s = true

abbrev repo : Repo
repo = record {
  agent = codes "AGENT_VERSION = \"1.0.0\"";
  localip = codes "def resolve";
  installer = codes "#!/bin/sh";
}

abbrev out : Files
out = (publish hash repo []).0

abbrev site : Text
site = codes "https://x.io"

-- the web server: what stands in the directory, by the name after `/dl/`
abbrev dropped : ℕ → Text → Text
dropped zero s = s
dropped (suc n) [] = []
dropped (suc n) (c ∷ s) = dropped n s

abbrev answer : ℕ → Text → Option Text
answer i url = get (dropped 16 url) out

abbrev copying : Copies
copying target bytes = some bytes

-- the marker cannot be removed
abbrev disk : Disk
disk = record { copies = copying; writes = done; unlinks = false }

-- with a `.new` file that is lost
abbrev old : Host
old = record {
  files = (codes "localip.py", codes "old") ∷ (codes "localip.py.new", codes "half") ∷ [];
  upgraded = false;
  copies = copying;
}

is_newer :
    rc_tunnel.Versions.version_ltb
      (rc_tunnel.Versions.vtuple agent_version)
      (rc_tunnel.Versions.vtuple (version_in repo.agent))
    ≡ true
unfolding rc_tunnel.Versions.version_ltb rc_tunnel.Versions.vtuple rc_tunnel.Versions.ints_of
    rc_tunnel.Base.split rc_tunnel.Versions.int_of version_in
is_newer = refl

publish-self_upgrade_example :
    (msg : Upgrade) × (maybe_upgrade default_settings (publish hash repo []).1 (some agent_version)
      ≡ some msg)
    × ((self_upgrade (fetch_retry answer) hash compiles site msg old).1 ≡ true)
    × (get agent_name (self_upgrade (fetch_retry answer) hash compiles site msg old).0.files
        ≡ some repo.agent)
    × (get localip_name (self_upgrade (fetch_retry answer) hash compiles site msg old).0.files
        ≡ some repo.localip)
    × (maybe_upgrade default_settings (publish hash repo []).1 (some (version_in repo.agent))
        ≡ none)
publish-self_upgrade_example =
    publish-self_upgrade answer hash compiles site default_settings repo [] old is_newer refl
      (λ f bytes h. h) (λ bytes. refl) (refl, refl) (refl, refl)

abbrev fetch : Text → Option Text
fetch url = some (codes "new")

abbrev offer : Upgrade
offer = record {
  version = codes "1.0.0";
  base_url = [];
  files = codes "localip.py" ∷ [];
  sha256 = (codes "localip.py", codes "#new") ∷ [];
}

upgraded_here : (self_upgrade fetch hash compiles site offer old).1 ≡ true
unfolding self_upgrade rc_tunnel.Versions.version_leb rc_tunnel.Versions.vtuple
    rc_tunnel.Versions.ints_of rc_tunnel.Base.split rc_tunnel.Versions.int_of
    rc_tunnel.Supervisor.Ota.stage rc_tunnel.Supervisor.Ota.stage_one
    rc_tunnel.Supervisor.Ota.is_safe_artifact get rc_tunnel.Supervisor.Ota.accepts
upgraded_here = refl

abbrev marker : Option (List ℕ)
marker = some (10 ∷ 20 ∷ 30 ∷ 40 ∷ [])

fires_here :
    (boot_guard compiles disk 50 (record {
      files = (self_upgrade fetch hash compiles site offer old).0.files;
      boot_attempts = marker;
    })).1
    ≡ true
unfolding boot_guard rc_tunnel.Supervisor.Boot.attempts_at rc_tunnel.Supervisor.Boot.backups
    self_upgrade rc_tunnel.Versions.version_leb rc_tunnel.Versions.vtuple rc_tunnel.Versions.ints_of
    rc_tunnel.Base.split rc_tunnel.Versions.int_of rc_tunnel.Supervisor.Ota.stage
    rc_tunnel.Supervisor.Ota.stage_one rc_tunnel.Supervisor.Ota.is_safe_artifact get
    rc_tunnel.Supervisor.Ota.accepts rc_tunnel.Supervisor.Ota.install rc_tunnel.Base.Dict.put
    rc_tunnel.Supervisor.Ota.install_one rc_tunnel.Supervisor.Ota.back_up
    rc_tunnel.Supervisor.Ota.copy2 rc_tunnel.Supervisor.Ota.os_replace rc_tunnel.Base.Dict.pop
fires_here = refl

boot_guard-self_upgrade_example :
    get
      (codes "localip.py")
      (boot_guard compiles disk 50 (record {
        files = (self_upgrade fetch hash compiles site offer old).0.files;
        boot_attempts = marker;
      })).0.files
    ≡ some (codes "old")
unfolding get
boot_guard-self_upgrade_example =
    boot_guard-self_upgrade fetch hash compiles site (codes "localip.py") (codes "old") offer old
      disk 50 marker refl refl (refl, (refl, tt)) (refl, tt) (inl refl) refl refl refl (λ py. refl)
      upgraded_here fires_here
