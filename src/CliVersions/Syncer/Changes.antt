-- ===== src/CliVersions/Syncer/Changes.antt =====
-- cliversions/syncer.go: the reported changes of a run.
use code_code_platform_catal.Prelude.{
  ℕ, ◌≡◌, refl, ap, Bool, true, not, List, [], ◌∷◌, Option, none, some, inl, inr, Bool-cases,
  Option-cases, ◌==◌, get, All, All-append,
}
use code_code_platform_catal.Text.{Text, text_eq, is_empty}
use code_code_platform_catal.CliVersions.Source.{
  Cli, Source, SourceResult, source_found, no_source, source_error, resolve_source, Snapshot, State,
}
use code_code_platform_catal.CliVersions.Syncer.{
  VersionChange, Progress, cli_id_of, with_error, without_source, mark_configured, keep_version,
  change_version, record_version, fetch_version, sync_cli, sync_clis, synced, sync,
}
use code_code_platform_catal.CliVersions.Syncer.Laws.{sync_cli-error, sync_cli-none, sync_cli-found}

abbrev pub differs : Option Snapshot → Snapshot → Bool
differs none current = true
differs (some previous) current = not (previous.version == current.version)

-- The change starts from the tool's current snapshot, gives another version, and has the time of
-- the run.
abbrev pub IsChange : State → ℕ → VersionChange → Type 0
IsChange current now c =
    (get current c.cli_id ≡ c.previous)
    × (differs c.previous c.current ≡ true)
    × (c.current.updated_at ≡ now)

module _ (fetch : Source → Option Text) (now : ℕ) (current : State) where
  change_version-IsChange :
      (id : Text) (previous : Option Snapshot) (version : Text) (p : Progress)
      → get current id ≡ previous
      → differs previous (record { version = version; updated_at = now }) ≡ true
      → All (IsChange current now) p.changes
      → All (IsChange current now) (change_version fetch now current id previous version p).changes
  unfolding change_version
  change_version-IsChange id previous version p e d h =
      All-append (IsChange current now) p.changes _ h ((e, d, refl), tt)

  record_version-IsChange :
      (id version : Text) (p : Progress)
      → All (IsChange current now) p.changes
      → All (IsChange current now) (record_version fetch now current id version p).changes
  unfolding record_version keep_version
  record_version-IsChange id version p h = elim (Option-cases (get current id)) [
    | inl new ↦ rw (new, record_version) (change_version-IsChange id none version p new refl h)
    | inr (previous, old) ↦ elim (Bool-cases (previous.version == version)) [
      | inl same ↦ rw (old, same, record_version) h
      | inr other ↦
          rw (old, other, record_version)
            (change_version-IsChange id (some previous) version p old (ap not other) h)
    ]
  ]

  fetch_version-IsChange :
      (id : Text) (source : Source) (p : Progress)
      → All (IsChange current now) p.changes
      → All (IsChange current now) (fetch_version fetch now current id source p).changes
  unfolding fetch_version with_error mark_configured
  fetch_version-IsChange id source p h = elim (Option-cases (fetch source)) [
    | inl failed ↦ rw (failed, fetch_version) h
    | inr (version, e) ↦ rw (e, fetch_version) (record_version-IsChange id version _ h)
  ]

  sync_cli-IsChange :
      (p : Progress) (cli : Option Cli)
      → All (IsChange current now) p.changes
      → All (IsChange current now) (sync_cli fetch now current p cli).changes
  sync_cli-IsChange p cli h = by_result (resolve_source cli) refl
    where
      by_result :
          (r : SourceResult)
          → resolve_source cli ≡ r
          → All (IsChange current now) (sync_cli fetch now current p cli).changes
      by_result source_error e =
          unfold with_error in rw (sync_cli-error fetch now current p cli e) h
      by_result no_source e = elim (Bool-cases (is_empty (cli_id_of cli))) [
        | inl blank ↦ rw (sync_cli-none fetch now current p cli e, blank) h
        | inr named ↦ unfold without_source in rw (sync_cli-none fetch now current p cli e, named) h
      ]
      by_result (source_found source) e = elim (Bool-cases (is_empty (cli_id_of cli))) [
        | inl blank ↦ rw (sync_cli-found fetch now current p cli source e, blank) h
        | inr named ↦
            rw (sync_cli-found fetch now current p cli source e, named)
              (fetch_version-IsChange (cli_id_of cli) source p h)
      ]

  sync_clis-IsChange :
      (p : Progress) (clis : List (Option Cli))
      → All (IsChange current now) p.changes
      → All (IsChange current now) (sync_clis fetch now current p clis).changes
  unfolding sync_clis
  sync_clis-IsChange p [] h = h
  sync_clis-IsChange p (cli ∷ clis) h =
      sync_clis-IsChange (sync_cli fetch now current p cli) clis (sync_cli-IsChange p cli h)

  -- Every reported change starts from the stored snapshot of its tool, or from none, gives a
  -- version other than the stored one, and has the time of the run.
  pub sync-IsChange :
      (clis : List (Option Cli)) → All (IsChange current now) (sync fetch now current clis).1
  unfolding sync synced
  sync-IsChange clis = sync_clis-IsChange _ clis tt
