-- ===== src/CliVersions/Source.antt =====
-- cliversions/source.go, cliversions/state.go and cliversions/resolver.go, and the choice of
-- cliversions/fetcher.go.
use code_code_platform_catal.Prelude.{ℕ, List, [], Option, none, some, if◌then◌else◌, get}
use code_code_platform_catal.Text.{Text, codes, text_eq, is_empty, trim_space, cut}

-- The contract's source of an official version; a kind that the code does not know is `other`.
pub data VersionSource : Type 0 where
  npm_dist_tag : Text → Text → VersionSource
  homebrew_cask : Text → VersionSource
  other : VersionSource

-- `supportv1.CLI`, as far as it is read.
pub record Cli : Type 0 where
  pub cli_id : Text
  pub official_version_source : Option VersionSource

-- `Source`: the fields of its kind.
pub data Source : Type 0 where
  npm_source : Text → Text → Text → Source
  homebrew_source : Text → Text → Source

-- The results of `ResolveSource`: a source, none, or an error.
pub data SourceResult : Type 0 where
  source_found : Source → SourceResult
  no_source : SourceResult
  source_error : SourceResult

unfoldable pub resolve_version_source : Text → VersionSource → SourceResult
resolve_version_source cli_id (npm_dist_tag package_name dist_tag) =
    let name = trim_space package_name in
    let tag = trim_space dist_tag in
    if is_empty name
    then source_error
    else source_found (npm_source cli_id name (if is_empty tag then codes "latest" else tag))
resolve_version_source cli_id (homebrew_cask cask) =
    let c = trim_space cask in
    if is_empty c then source_error else source_found (homebrew_source cli_id c)
resolve_version_source cli_id other = source_error

unfoldable pub resolve_source : Option Cli → SourceResult
resolve_source none = no_source
resolve_source (some cli) = elim cli.official_version_source [
  | none ↦ no_source
  | some source ↦ resolve_version_source (trim_space cli.cli_id) source
]

-- `Snapshot`; a time is a number.
pub record Snapshot : Type 0 where
  pub version : Text
  pub updated_at : ℕ

-- `State`.
abbrev pub State : Type 0
State = List (Text × Snapshot)

-- `Resolve` on a loaded state; an empty id is an error, `none`.
unfoldable pub resolve_version : State → Text → Option Text
resolve_version state cli_id =
    let id = trim_space cli_id in
    if is_empty id
    then none
    else elim (get state id) [ none ↦ some [] | some snapshot ↦ some (trim_space snapshot.version) ]

-- The part of a cask's version before the first comma.
unfoldable pub cask_version : Text → Option Text
cask_version raw =
    let first : Text = elim (cut b',' raw) [ none ↦ raw | some (before, _) ↦ before ] in
    let version = trim_space first in if is_empty version then none else some version
