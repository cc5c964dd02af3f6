-- ===== src/Publish.antt =====
-- rctunnel-panel/scripts/publish.py: the files and the manifest that agents upgrade from. The
-- directories are dictionaries from names to contents, and the manifest is given as what it says.
pub mod Listed
pub mod Upgraded
use rc_tunnel.Base.{
  ℕ, ◌==◌, Bool, true, false, not, Option, none, some, List, [], ◌∷◌, ◌++◌, map, select, any, Text,
  codes, text_eq, starts_with, lstrip, is_space, if◌then◌else◌,
}
use rc_tunnel.Base.Dict.{get, put, text_key}
use rc_tunnel.Base.Sorted.{sorted_set, text_ltb}
use rc_tunnel.Versions.{Manifest, default_files}
use rc_tunnel.Supervisor.Ota.{Files}

-- the texts that are copied: the repository's
pub record Repo : Type 0 where
  pub agent : Text
  pub localip : Text
  pub installer : Text

-- `shutil.copy2` of each
unfoldable pub copied : Repo → Files → Files
copied repo dest =
    put (codes "install.sh") repo.installer
      (put (codes "localip.py") repo.localip (put (codes "rctunnel_agent.py") repo.agent dest))

-- what follows a prefix
abbrev pub after : Text → Text → Option Text
after [] s = some s
after (c ∷ p) [] = none
after (c ∷ p) (d ∷ s) = let rest = after p s in if c == d then rest else none

-- `[^"]+"`
unfoldable pub until_quote : Text → Option Text
until_quote [] = none
until_quote (c ∷ s) =
    let rest = until_quote s in
    if c == b'"' then some [] else elim rest [ none ↦ none | some v ↦ some (c ∷ v) ]

abbrev filled : Option Text → Option Text
filled none = none
filled (some []) = none
filled (some (c ∷ v)) = some (c ∷ v)

abbrev pub quoted : Option Text → Option Text
quoted none = none
quoted (some s) = elim (after (codes "\"") (lstrip is_space s)) [
  | none ↦ none
  | some t ↦ filled (until_quote t)
]

abbrev pub equal_sign : Option Text → Option Text
equal_sign none = none
equal_sign (some s) = after (codes "=") (lstrip is_space s)

-- `AGENT_VERSION\s*=\s*"([^"]+)"` at the beginning
unfoldable pub version_here : Text → Option Text
unfolding until_quote
version_here s = quoted (equal_sign (after (codes "AGENT_VERSION") s))

-- `re.search`, and the version if nothing is found
unfoldable pub version_in : Text → Text
unfolding version_here
version_in [] = codes "0.0.0"
version_in (c ∷ s) =
    let rest = version_in s in elim (version_here (c ∷ s)) [ none ↦ rest | some v ↦ v ]

abbrev pub is_artifact : Text → Bool
is_artifact name = not (text_eq name (codes "manifest.json"))

module _ (sha256 : Text → Text) where
  -- the hashes of the files, in the order of their names
  unfoldable pub hash_each : Files → List Text → Files → Files
  hash_each dest [] hashes = hashes
  hash_each dest (name ∷ names) hashes =
      hash_each dest names
        (elim (get name dest) [ none ↦ hashes | some bytes ↦ put name (sha256 bytes) hashes ])

  unfoldable pub artifact_hashes : Files → Files
  unfolding hash_each
  artifact_hashes dest =
      hash_each dest (select is_artifact (sorted_set text_ltb (map (λ f. f.0) dest))) []

  unfoldable pub publish : Repo → Files → Files × Manifest
  unfolding copied version_in artifact_hashes
  publish repo dest =
      let out = copied repo dest in
      (
        out,
        record {
          agent_version = some (version_in repo.agent);
          files = some default_files;
          sha256 = artifact_hashes out;
        },
      )
