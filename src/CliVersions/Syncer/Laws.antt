-- ===== src/CliVersions/Syncer/Laws.antt =====
-- cliversions/syncer.go: the saved state of a run.
use code_code_platform_catal.Prelude.{
  ℕ, ◌≡◌, refl, ap, ◌∙◌, Bool, true, false, not, ◌&&◌, ◌||◌, List, [], ◌∷◌, Option, none, some,
  arith, inl, inr, Bool-cases, Option-cases, if◌then◌else◌, ◌==◌, eq_iff, get, put, contains,
  get-put, get-remove,
}
use code_code_platform_catal.Text.{Text, text_eq, is_empty}
use code_code_platform_catal.CliVersions.Source.{
  Cli, Source, SourceResult, source_found, no_source, source_error, resolve_source, State, Snapshot,
}
use code_code_platform_catal.CliVersions.Syncer.{
  Progress, cli_id_of, with_error, without_source, mark_configured, keep_version, change_version,
  record_version, fetch_version, sync_cli, sync_clis, keep_configured, synced, sync,
}

get-keep_configured :
    (configured : List Text) (m : State) (k : Text)
    → get (keep_configured configured m) k ≡ (if contains configured k then get m k else none)
unfolding keep_configured get
get-keep_configured configured [] k = ground arith
get-keep_configured configured ((id, s) ∷ m) k =
    ground (arith, get-keep_configured configured m k, eq_iff id k)

unfoldable pub has_source : SourceResult → Bool
has_source (source_found _) = true
has_source no_source = false
has_source source_error = false

-- The tool has the id and a source of its version.
unfoldable pub lists_source : Option Cli → Text → Bool
lists_source cli k =
    has_source (resolve_source cli) && not (is_empty (cli_id_of cli)) && cli_id_of cli == k

unfoldable pub is_configured : List (Option Cli) → Text → Bool
is_configured [] k = false
is_configured (cli ∷ clis) k = lists_source cli k || is_configured clis k

module _ (fetch : Source → Option Text) (now : ℕ) (current : State) where
  configured-record_version :
      (id version : Text) (p : Progress)
      → (record_version fetch now current id version p).configured ≡ p.configured
  unfolding record_version keep_version change_version
  configured-record_version id version p = elim (Option-cases (get current id)) [
    | inl new ↦ rw (new, record_version) refl
    | inr (previous, old) ↦ elim (Bool-cases (previous.version == version)) [
      | inl same ↦ rw (old, same, record_version) refl
      | inr other ↦ rw (old, other, record_version) refl
    ]
  ]

  configured-fetch_version :
      (id : Text) (source : Source) (p : Progress)
      → (fetch_version fetch now current id source p).configured ≡ id ∷ p.configured
  unfolding fetch_version with_error mark_configured
  configured-fetch_version id source p = elim (Option-cases (fetch source)) [
    | inl failed ↦ rw (failed, fetch_version) refl
    | inr (version, e) ↦ rw (e, fetch_version) (configured-record_version id version _)
  ]

  -- The body of the loop, by the result of `ResolveSource`, for a tool that has an id.
  pub sync_cli-error :
      (p : Progress) (cli : Option Cli)
      → resolve_source cli ≡ source_error
      → sync_cli fetch now current p cli ≡ with_error fetch now current p
  unfolding sync_cli
  sync_cli-error p cli e = rw (e, sync_cli) refl

  pub sync_cli-none :
      (p : Progress) (cli : Option Cli)
      → resolve_source cli ≡ no_source
      → sync_cli fetch now current p cli ≡ (
          if is_empty (cli_id_of cli)
          then p
          else without_source fetch now current (cli_id_of cli) p)
  unfolding sync_cli
  sync_cli-none p cli e = rw (e, sync_cli) refl

  pub sync_cli-found :
      (p : Progress) (cli : Option Cli) (source : Source)
      → resolve_source cli ≡ source_found source
      → sync_cli fetch now current p cli ≡ (
          if is_empty (cli_id_of cli)
          then p
          else fetch_version fetch now current (cli_id_of cli) source p)
  unfolding sync_cli
  sync_cli-found p cli source e = rw (e, sync_cli) refl

  configured-sync_cli :
      (p : Progress) (cli : Option Cli) (k : Text)
      → contains (sync_cli fetch now current p cli).configured k
        ≡ (contains p.configured k || lists_source cli k)
  configured-sync_cli p cli k = by_result (resolve_source cli) refl
    where
      by_result :
          (r : SourceResult)
          → resolve_source cli ≡ r
          → contains (sync_cli fetch now current p cli).configured k
            ≡ (contains p.configured k || lists_source cli k)
      by_result source_error e =
          unfold with_error has_source lists_source in rw (sync_cli-error p cli e, e) (ground arith)
      by_result no_source e = elim (Bool-cases (is_empty (cli_id_of cli))) [
        | inl blank ↦
            unfold has_source lists_source in rw (sync_cli-none p cli e, blank, e) (ground arith)
        | inr named ↦
            unfold without_source has_source lists_source in
            rw (sync_cli-none p cli e, named, e) (ground arith)
      ]
      by_result (source_found source) e = elim (Bool-cases (is_empty (cli_id_of cli))) [
        | inl blank ↦
            unfold has_source lists_source in
            rw (sync_cli-found p cli source e, blank, e) (ground arith)
        | inr named ↦
            unfold has_source lists_source in
            rw
              (
                sync_cli-found p cli source e,
                named,
                e,
                configured-fetch_version (cli_id_of cli) source p,
              )
              (unfold contains in ground arith)
      ]

  configured-sync_clis :
      (p : Progress) (clis : List (Option Cli)) (k : Text)
      → contains (sync_clis fetch now current p clis).configured k
        ≡ (contains p.configured k || is_configured clis k)
  unfolding sync_clis is_configured
  configured-sync_clis p [] k = ground arith
  configured-sync_clis p (cli ∷ clis) k = ground (
    arith,
    configured-sync_clis (sync_cli fetch now current p cli) clis k,
    configured-sync_cli p cli k,
  )

  -- The snapshot of a tool whose fetched version is this one: the stored snapshot, if it has the
  -- version, and else a new one.
  unfoldable pub snapshot_of : Text → Option Snapshot → Snapshot
  snapshot_of version none = record { version = version; updated_at = now }
  snapshot_of version (some stored) =
      if stored.version == version then stored else record { version = version; updated_at = now }

  -- The snapshot of the id after one tool of the list. A source that cannot be read, a failed fetch
  -- and a tool with another id keep it, and a tool without a source removes it.
  unfoldable pub snapshot_after : Text → Option Snapshot → Option Cli → Option Snapshot
  snapshot_after k before cli =
      if not (is_empty (cli_id_of cli)) && cli_id_of cli == k
      then elim (resolve_source cli) [
        | source_error ↦ before
        | no_source ↦ none
        | source_found source ↦ elim (fetch source) [
          | none ↦ before
          | some version ↦ some (snapshot_of version (get current k))
        ]
      ]
      else before

  unfoldable pub snapshot_after_all : Text → Option Snapshot → List (Option Cli) → Option Snapshot
  snapshot_after_all k before [] = before
  snapshot_after_all k before (cli ∷ clis) = snapshot_after_all k (snapshot_after k before cli) clis

  next-record_version :
      (id version : Text) (p : Progress)
      → (record_version fetch now current id version p).next
        ≡ put id (snapshot_of version (get current id)) p.next
  unfolding record_version keep_version change_version snapshot_of
  next-record_version id version p = elim (Option-cases (get current id)) [
    | inl new ↦ rw (new, record_version) refl
    | inr (previous, old) ↦ elim (Bool-cases (previous.version == version)) [
      | inl same ↦ rw (old, same, record_version) refl
      | inr other ↦ rw (old, other, record_version) refl
    ]
  ]

  get-record_version :
      (id version k : Text) (p : Progress)
      → get (record_version fetch now current id version p).next k
        ≡ (if id == k then some (snapshot_of version (get current k)) else get p.next k)
  get-record_version id version k p =
      ap (λ m. get m k) (next-record_version id version p)
      ∙ get-put id (snapshot_of version (get current id)) p.next k
      ∙ elim (Bool-cases (id == k)) [
        | inl same ↦ rw (same, (eq_iff id k).0 same) refl
        | inr other ↦ rw other refl
      ]

  get-fetch_version :
      (id k : Text) (source : Source) (p : Progress)
      → get (fetch_version fetch now current id source p).next k ≡ (
          if id == k
          then elim (fetch source) [
            | none ↦ get p.next k
            | some version ↦ some (snapshot_of version (get current k))
          ]
          else get p.next k)
  unfolding fetch_version with_error mark_configured
  get-fetch_version id k source p = elim (Option-cases (fetch source)) [
    | inl failed ↦ rw (failed, fetch_version) (ground arith)
    | inr (version, e) ↦ rw (e, fetch_version) (get-record_version id version k _)
  ]

  get-sync_cli :
      (p : Progress) (cli : Option Cli) (k : Text)
      → get (sync_cli fetch now current p cli).next k ≡ snapshot_after k (get p.next k) cli
  get-sync_cli p cli k = by_result (resolve_source cli) refl
    where
      by_result :
          (r : SourceResult)
          → resolve_source cli ≡ r
          → get (sync_cli fetch now current p cli).next k ≡ snapshot_after k (get p.next k) cli
      by_result source_error e =
          unfold with_error snapshot_after in rw (sync_cli-error p cli e, e) (ground arith)
      by_result no_source e = elim (Bool-cases (is_empty (cli_id_of cli))) [
        | inl blank ↦ unfold snapshot_after in rw (sync_cli-none p cli e, blank) refl
        | inr named ↦
            unfold without_source snapshot_after in
            rw (sync_cli-none p cli e, named, e, get-remove (cli_id_of cli) p.next k) (ground arith)
      ]
      by_result (source_found source) e = elim (Bool-cases (is_empty (cli_id_of cli))) [
        | inl blank ↦ unfold snapshot_after in rw (sync_cli-found p cli source e, blank) refl
        | inr named ↦
            unfold snapshot_after in
            rw (sync_cli-found p cli source e, named, e)
              (get-fetch_version (cli_id_of cli) k source p ∙ ground arith)
      ]

  get-sync_clis :
      (p : Progress) (clis : List (Option Cli)) (k : Text)
      → get (sync_clis fetch now current p clis).next k ≡ snapshot_after_all k (get p.next k) clis
  unfolding sync_clis snapshot_after_all
  get-sync_clis p [] k = refl
  get-sync_clis p (cli ∷ clis) k =
      get-sync_clis (sync_cli fetch now current p cli) clis k
      ∙ ap (λ s. snapshot_after_all k s clis) (get-sync_cli p cli k)

  -- The saved state has versions only of the tools that are listed with an id and a source. For such
  -- an id the tools of that id decide in turn, from the stored snapshot on: a fetched version gives
  -- the stored snapshot when it has that version, else a new snapshot with the time of the run; a
  -- failed fetch and a source that cannot be read keep what was there; a tool without a source
  -- removes it.
  pub get-sync :
      (clis : List (Option Cli)) (k : Text)
      → get (sync fetch now current clis).0 k
        ≡ (if is_configured clis k then snapshot_after_all k (get current k) clis else none)
  unfolding sync synced is_configured contains
  get-sync clis k =
      get-keep_configured _ _ k
      ∙ ap (λ b. if b then get (synced fetch now current clis).next k else none)
          (configured-sync_clis _ clis k)
      ∙ ap (λ s. if is_configured clis k then s else none) (get-sync_clis _ clis k)
