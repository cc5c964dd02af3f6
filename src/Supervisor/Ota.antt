-- ===== src/Supervisor/Ota.antt =====
-- rctunnel-panel/agent/rctunnel_agent.py: `_fetch_retry` and `_self_upgrade`. The state is the
-- install directory. What makes the upgrade fail is the loop's `raise`, after which nothing was
-- written; the writes and moves of the new files, which follow it, are taken to succeed. A copy to
-- a backup may fail.
use rc_tunnel.Base.{
  ℕ, zero, suc, ◌+◌, Bool, true, false, not, ◌&&◌, ◌||◌, Option, none, some, List, [], ◌∷◌, ◌++◌,
  leb, ◌==◌, Text, codes, text_eq, ends_with, if◌then◌else◌,
}
use rc_tunnel.Base.Dict.{get, put, pop, text_key}
use rc_tunnel.Tunnels.Labels.{drop_line_feed}
use rc_tunnel.Tunnels.Domains.{every}
use rc_tunnel.Versions.{Upgrade, vtuple, version_leb, files_or}

abbrev pub agent_version : Text
agent_version = codes "0.9.0"

-- `[A-Za-z0-9]`, and with `.`, `_` and `-`
abbrev pub is_word : ℕ → Bool
is_word c = (leb b'A' c && leb c b'Z') || ((leb b'a' c && leb c b'z') || (leb b'0' c && leb c b'9'))

abbrev pub is_file_code : ℕ → Bool
is_file_code c = is_word c || (c == b'.' || (c == b'_' || c == b'-'))

abbrev safe_core : Text → Bool
safe_core [] = false
safe_core (c ∷ s) = is_word c && every is_file_code s

-- `_SAFE_ARTIFACT.match(f)`
unfoldable pub is_safe_artifact : Text → Bool
is_safe_artifact f = safe_core (drop_line_feed f)

-- an attempt that answers with no bytes counts as failed
abbrev pub nonempty_answer : Option Text → Option Text
nonempty_answer none = none
nonempty_answer (some []) = none
nonempty_answer (some (c ∷ s)) = some (c ∷ s)

-- the attempts of `_fetch_retry`, numbered
unfoldable pub fetch_from : (ℕ → Text → Option Text) → Text → ℕ → ℕ → Option Text
fetch_from answer url i zero = none
fetch_from answer url i (suc tries) =
    let rest = fetch_from answer url (i + 1) tries in
    elim (nonempty_answer (answer i url)) [ none ↦ rest | some data_ ↦ some data_ ]

unfoldable pub fetch_retry : (ℕ → Text → Option Text) → Text → Option Text
unfolding fetch_from
fetch_retry answer url = fetch_from answer url 0 3

abbrev pub Files : Type 0
Files = List (Text × Text)

-- `if not want`
abbrev pub trusted : Option Text → Option Text
trusted none = none
trusted (some []) = none
trusted (some (c ∷ want)) = some (c ∷ want)

-- What a copy of these bytes leaves at this name: they themselves if it succeeds. If it fails, the
-- file may stay as it was, `none`, or have anything written to it.
abbrev pub Copies : Type 0
Copies = Text → Text → Option Text

-- `shutil.copy2` under `except Exception: pass`
unfoldable pub copy2 : Copies → Text → Text → Files → Files
copy2 copies target bytes files = elim (copies target bytes) [
  | none ↦ files
  | some written ↦ put target written files
]

-- `os.replace`
unfoldable pub os_replace : Text → Text → Files → Files
os_replace tmp dest files = elim (get tmp files) [
  | none ↦ files
  | some bytes ↦ put dest bytes (pop tmp files)
]

-- `if dest.exists()`, the rollback copy
unfoldable pub back_up : Copies → Text → Files → Files
back_up copies f files = elim (get f files) [
  | none ↦ files
  | some old ↦ copy2 copies (f ++ codes ".bak") old files
]

-- the backup, the new file beside the old one, and the swap
unfoldable pub install_one : Copies → Text → Text → Files → Files
install_one copies f bytes files =
    os_replace (f ++ codes ".new") f (put (f ++ codes ".new") bytes (back_up copies f files))

unfoldable pub install : Copies → Files → Files → Files
install copies [] files = files
install copies ((f, bytes) ∷ staged) files =
    install copies staged (install_one copies f bytes files)

-- with what becomes of copies in the install directory
pub record Host : Type 0 where
  pub files : Files
  pub upgraded : Bool
  pub copies : Copies

module _ (fetch : Text → Option Text) (sha256 : Text → Text) (compiles : Text → Bool) where
  -- the checks on one download
  unfoldable pub accepts : Text → Text → Text → Bool
  accepts f want bytes =
      text_eq (sha256 bytes) want && (not (ends_with (codes ".py") f) || compiles bytes)

  -- one round of the loop: the bytes that are staged
  unfoldable pub stage_one : Text → Files → Text → Option Text
  stage_one base hashes f =
      if not (is_safe_artifact f) then none else elim (trusted (get f hashes)) [
        | none ↦ none
        | some want ↦ elim (fetch (base ++ (b'/' ∷ f))) [
          | none ↦ none
          | some bytes ↦ if accepts f want bytes then some bytes else none
        ]
      ]

  unfoldable pub stage : Text → Files → List Text → Files → Option Files
  stage base hashes [] staged = some staged
  stage base hashes (f ∷ fs) staged = elim (stage_one base hashes f) [
    | none ↦ none
    | some bytes ↦ stage base hashes fs (put f bytes staged)
  ]

  -- the new state, and whether the agent restarts into the new code
  unfoldable pub self_upgrade : Text → Upgrade → Host → Host × Bool
  self_upgrade master_url msg h =
      if h.upgraded || version_leb (vtuple msg.version) (vtuple agent_version)
      then (h, false)
      else elim (stage (master_url ++ codes "/dl") msg.sha256 (files_or (some msg.files)) []) [
        | none ↦ (h, false)
        | some staged ↦
            (record h { files = install h.copies staged h.files; upgraded = true }, true)
      ]
