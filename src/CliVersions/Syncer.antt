-- ===== src/CliVersions/Syncer.antt =====
-- cliversions/syncer.go. The store, the list of tools, the fetcher and the clock are parameters.
pub mod Laws
pub mod Changes
use code_code_platform_catal.Prelude.{
  ℕ, suc, Bool, true, false, ◌&&◌, List, [], ◌∷◌, ◌++◌, Option, none, some, if◌then◌else◌, ◌==◌,
  get, put, remove, contains,
}
use code_code_platform_catal.Text.{Text, text_eq, is_empty, trim_space}
use code_code_platform_catal.CliVersions.Source.{
  Cli, Source, SourceResult, source_found, no_source, source_error, resolve_source, Snapshot, State,
}

-- `VersionChange`; the previous snapshot of a new tool is `none`.
pub record VersionChange : Type 0 where
  pub cli_id : Text
  pub previous : Option Snapshot
  pub current : Snapshot

-- The variables of the loop.
pub record Progress : Type 0 where
  pub next : State
  pub configured : List Text
  pub changes : List VersionChange
  pub errors : ℕ

abbrev pub cli_id_of : Option Cli → Text
cli_id_of none = []
cli_id_of (some cli) = trim_space cli.cli_id

-- The second loop: what is not configured is deleted.
unfoldable pub keep_configured : List Text → State → State
keep_configured configured [] = []
keep_configured configured ((id, snapshot) ∷ next) =
    let rest = keep_configured configured next in
    if contains configured id then (id, snapshot) ∷ rest else rest

module _ (fetch : Source → Option Text) (now : ℕ) (current : State) where
  unfoldable pub with_error : Progress → Progress
  with_error p = record {
    next = p.next;
    configured = p.configured;
    changes = p.changes;
    errors = suc p.errors;
  }

  unfoldable pub without_source : Text → Progress → Progress
  without_source id p = record {
    next = remove id p.next;
    configured = p.configured;
    changes = p.changes;
    errors = p.errors;
  }

  unfoldable pub mark_configured : Text → Progress → Progress
  mark_configured id p = record {
    next = p.next;
    configured = id ∷ p.configured;
    changes = p.changes;
    errors = p.errors;
  }

  unfoldable pub keep_version : Text → Snapshot → Progress → Progress
  keep_version id previous p = record {
    next = put id previous p.next;
    configured = p.configured;
    changes = p.changes;
    errors = p.errors;
  }

  unfoldable pub change_version : Text → Option Snapshot → Text → Progress → Progress
  change_version id previous version p =
      let snapshot : Snapshot = record { version = version; updated_at = now } in
      record {
        next = put id snapshot p.next;
        configured = p.configured;
        changes = p.changes ++ record { cli_id = id; previous = previous; current = snapshot } ∷ [];
        errors = p.errors;
      }

  -- The steps after a version was fetched.
  unfoldable pub record_version : Text → Text → Progress → Progress
  record_version id version p = elim (get current id) [
    | none ↦ change_version id none version p
    | some previous ↦
        if previous.version == version
        then keep_version id previous p
        else change_version id (some previous) version p
  ]

  unfoldable pub fetch_version : Text → Source → Progress → Progress
  fetch_version id source p = elim (fetch source) [
    | none ↦ with_error (mark_configured id p)
    | some version ↦ record_version id version (mark_configured id p)
  ]

  -- The body of the loop over the tools.
  unfoldable pub sync_cli : Progress → Option Cli → Progress
  sync_cli p cli =
      let id = cli_id_of cli in
      elim (resolve_source cli) [
        | source_error ↦ with_error p
        | no_source ↦ if is_empty id then p else without_source id p
        | source_found source ↦ if is_empty id then p else fetch_version id source p
      ]

  unfoldable pub sync_clis : Progress → List (Option Cli) → Progress
  sync_clis p [] = p
  sync_clis p (cli ∷ clis) = sync_clis (sync_cli p cli) clis

  unfoldable pub synced : List (Option Cli) → Progress
  synced clis =
      sync_clis (record { next = current; configured = []; changes = []; errors = 0 }) clis

  -- The state that `Sync` saves, if it differs from the current one, and the changes it returns.
  unfoldable pub sync : List (Option Cli) → State × List VersionChange
  sync clis = let p = synced clis in (keep_configured p.configured p.next, p.changes)
