-- ===== src/Tests/Runs.antt =====
-- The synchronizations at a store in memory.
use code_code_platform_catal.Prelude.{
  ℕ, ◌≡◌, refl, sym, ap, ◌∙◌, ◌++◌, Bool, true, false, not, ◌&&◌, ◌||◌, List, [], ◌∷◌, Option, none,
  some, some_eq, arith, inl, inr, if◌then◌else◌, ◌==◌, eq_self, get, put, remove, keys, get-put,
  get-remove, contains, All, Bool-cases, Option-cases,
}
use code_code_platform_catal.Text.{Text, text_eq, codes}
use code_code_platform_catal.Models.Types.{ModelVersion, CollectedEntry}
use code_code_platform_catal.Models.Authority.{is_some}
use code_code_platform_catal.Models.Definition.{
  Defaults, SurfaceIdentity, identity_from_definition, key,
}
use code_code_platform_catal.Models.Registry.{RegistryEntry}
use code_code_platform_catal.Sync.Vendor.{
  ConfiguredVendor, VendorScope, new_configured_vendor_scope, canonical_vendor_id,
}
use code_code_platform_catal.Sync.Vendor.Laws.{any_vendor, canonical_vendor_id_sound}
use code_code_platform_catal.Sync.Snapshot.{
  CollectedSnapshot, new_collected_definitions_snapshot, merge_collected_definitions_snapshot,
}
use code_code_platform_catal.Sync.Snapshot.Laws.{
  has_key, IsKeyed, new_collected_definitions_snapshot-IsKeyed,
  merge_collected_definitions_snapshot-IsKeyed,
}
use code_code_platform_catal.Sync.Apply.{
  StoredDefinition, Deletion, deleted, not_found, failed, DefinitionSyncStore, sync,
}
use code_code_platform_catal.Sync.Apply.Laws.{entry_identity, IsStore, is_stale}
use code_code_platform_catal.Sync.Apply.Outcome.{holds-sync, holds-sync_kept}
use code_code_platform_catal.CliVersions.Source.{Cli, Source, State, npm_dist_tag}
use code_code_platform_catal.CliVersions.Syncer.{sync as sync_versions}
use code_code_platform_catal.CliVersions.Syncer.Laws.{get-sync}
use code_code_platform_catal.CliVersions.Syncer.Changes.{IsChange, sync-IsChange}

abbrev Memory : Type 0
Memory = List (Text × RegistryEntry)

abbrev holds : Memory → Text → Bool
holds s k = is_some (get s k)

listed : Memory → List StoredDefinition
listed [] = []
listed ((k, e) ∷ s) =
    record { identity = record { vendor_id = []; model_id = [] }; definition = e.definition }
    ∷ listed s

put_entry : Option RegistryEntry → Memory → Option Memory
put_entry none s = none
put_entry (some e) s = elim (identity_from_definition e.definition) [
  | none ↦ none
  | some i ↦ some (put (key i) e s)
]

delete_entry : SurfaceIdentity → Memory → Deletion Memory
delete_entry i s = if holds s (key i) then deleted (remove (key i) s) else not_found

abbrev memory : DefinitionSyncStore Memory
memory = record {
  list_managed_definitions = λ s. some (listed s);
  upsert_managed_definition = put_entry;
  delete_managed_definition = delete_entry;
}

deleted_eq : {s t : Memory} → deleted s ≡ deleted t → s ≡ t
deleted_eq h = ground (arith, h)

memory-IsStore : IsStore memory holds
memory-IsStore = record {
  holds-upsert = upserted;
  holds-delete = λ _ i s t _. removed i s t;
  holds-not_found = λ _ i s _. absent i s;
}
  where
    upserted :
        (e : Option RegistryEntry) (s t : Memory)
        → put_entry e s ≡ some t
        → (k : Text) → holds t k ≡ (has_key k (entry_identity e) || holds s k)
    upserted none s t h k = absurd (unfold put_entry in ground (arith, h))
    upserted (some e) s t h k = elim (Option-cases (identity_from_definition e.definition)) [
      | inl unnamed ↦ absurd (unfold put_entry in ground (arith, h, unnamed))
      | inr (i, named) ↦
          let at : put (key i) e s ≡ t = some_eq (unfold put_entry in ground (arith, h, named)) in
          rw (← at, named) (ground (arith, get-put (key i) e s k))
    ]

    removed :
        (i : SurfaceIdentity) (s t : Memory)
        → delete_entry i s ≡ deleted t
        → (k : Text) → holds t k ≡ (holds s k && not (key i == k))
    removed i s t h k = elim (Bool-cases (holds s (key i))) [
      | inl found ↦
          let at : remove (key i) s ≡ t =
            deleted_eq (unfold delete_entry in ground (arith, h, found)) in
          rw (← at) (ground (arith, get-remove (key i) s k))
      | inr missing ↦ absurd (unfold delete_entry in ground (arith, h, missing))
    ]

    absent :
        (i : SurfaceIdentity) (s : Memory) → delete_entry i s ≡ not_found → holds s (key i) ≡ false
    absent i s h = unfold delete_entry in ground (arith, h)

abbrev vendors : List ConfiguredVendor
vendors =
    record { vendor_id = codes "meta"; aliases = codes "meta-llama" ∷ [] }
    ∷ record { vendor_id = codes "openrouter"; aliases = [] }
    ∷ []

abbrev pub scope : VendorScope
scope = new_configured_vendor_scope vendors

meta_resolved : canonical_vendor_id scope (codes "Meta_Llama") ≡ some (codes "meta")
unfolding canonical_vendor_id code_code_platform_catal.Sync.Vendor.configured_vendor_id get
    new_configured_vendor_scope code_code_platform_catal.Sync.Vendor.add_vendors
    code_code_platform_catal.Sync.Vendor.add_vendor
    code_code_platform_catal.ModelIdentity.Slug.normalized_vendor_slug
    code_code_platform_catal.ModelIdentity.Slug.collapse_dashes code_code_platform_catal.Text.trim
    code_code_platform_catal.Text.is_space code_code_platform_catal.Text.lower_byte
    code_code_platform_catal.ModelIdentity.Slug.vendor_separator
    code_code_platform_catal.Text.contains_text code_code_platform_catal.Sync.Vendor.bind_aliases
    put code_code_platform_catal.Sync.Vendor.bind_configured_vendor_alias
    code_code_platform_catal.Prelude.list_beq
    code_code_platform_catal.ModelIdentity.Slug.replace_dashes
    code_code_platform_catal.Models.Authority.is_preset_source_vendor_id
    code_code_platform_catal.Models.Authority.preset_source_vendor_ids contains
    code_code_platform_catal.Sync.Vendor.add
    code_code_platform_catal.Sync.Vendor.append_unique_string code_code_platform_catal.Text.is_upper
    code_code_platform_catal.Text.trim_left code_code_platform_catal.Text.trim_right
    code_code_platform_catal.Text.has_prefix
meta_resolved = refl

canonical_vendor_id_sound_example : any_vendor (codes "meta") vendors ≡ true
canonical_vendor_id_sound_example =
    canonical_vendor_id_sound vendors (codes "Meta_Llama") (codes "meta") meta_resolved

abbrev pub defaults : Defaults
defaults = record { chat_completions = 1; text_modality = 1 }

abbrev model : Text → ModelVersion
model id = record {
  vendor_id = [];
  model_id = id;
  display_name = [];
  primary_shape = 0;
  supported_shapes = [];
  capabilities = [];
  input_modalities = [];
  output_modalities = [];
  context_spec = none;
  aliases = [];
}

abbrev entry : Text → CollectedEntry
entry id = record { definition = some (model id); badges = []; pricing = none; sources = [] }

abbrev pub grouped : List (Text × List CollectedEntry)
grouped = (codes "m", entry (codes "a") ∷ entry (codes "b") ∷ []) ∷ []

abbrev collected : CollectedSnapshot
collected =
    merge_collected_definitions_snapshot defaults (λ d. true)
      (new_collected_definitions_snapshot scope) grouped

collected-IsKeyed : IsKeyed collected.definitions
collected-IsKeyed =
    merge_collected_definitions_snapshot-IsKeyed defaults (λ d. true)
      (new_collected_definitions_snapshot scope) grouped
      (new_collected_definitions_snapshot-IsKeyed scope)

merge_collected_definitions_snapshot-IsKeyed_example :
    IsKeyed
      (merge_collected_definitions_snapshot defaults
        (λ d. true)
        (new_collected_definitions_snapshot scope)
        grouped).definitions
merge_collected_definitions_snapshot-IsKeyed_example =
    merge_collected_definitions_snapshot-IsKeyed defaults (λ d. true)
      (new_collected_definitions_snapshot scope) grouped
      (new_collected_definitions_snapshot-IsKeyed scope)

abbrev stored : Memory
stored =
    (
      codes "o" ++ 0 ∷ codes "x",
      record {
        definition = some (record {
          vendor_id = codes "o";
          model_id = codes "x";
          display_name = [];
          primary_shape = 0;
          supported_shapes = [];
          capabilities = [];
          input_modalities = [];
          output_modalities = [];
          context_spec = none;
          aliases = [];
        });
        badges = [];
        pricing = none;
        sources = [];
      },
    )
    ∷ []

run_succeeds : (sync memory collected stored).1 ≡ true
unfolding code_code_platform_catal.Sync.Apply.should_keep_managed_definition
    code_code_platform_catal.Sync.Apply.check_identities
    code_code_platform_catal.Sync.Apply.is_dropped code_code_platform_catal.Sync.Apply.apply_upserts
    code_code_platform_catal.Sync.Apply.apply_deletions
    code_code_platform_catal.Sync.Apply.after_upserts sync new_collected_definitions_snapshot
    code_code_platform_catal.Sync.Snapshot.supported_definition
    code_code_platform_catal.Sync.Snapshot.vendor_support_definition_candidate
    code_code_platform_catal.Sync.Snapshot.collected_entry
    code_code_platform_catal.Sync.Snapshot.put_collected
    code_code_platform_catal.Sync.Snapshot.merge_item
    code_code_platform_catal.Sync.Snapshot.merge_items
    code_code_platform_catal.Sync.Snapshot.merge_vendor merge_collected_definitions_snapshot
    code_code_platform_catal.Sync.Vendor.add
    code_code_platform_catal.Models.Definition.new_surface_identity identity_from_definition
    code_code_platform_catal.Models.Definition.identity_key key
    code_code_platform_catal.Models.Definition.apply_create_defaults
    code_code_platform_catal.Models.Registry.new_model_registry_entry contains get put remove keys
    code_code_platform_catal.Prelude.insert_by code_code_platform_catal.Prelude.sort_by
    code_code_platform_catal.Prelude.list_beq code_code_platform_catal.Text.is_space
    code_code_platform_catal.Text.trim_left code_code_platform_catal.Text.trim_right
    code_code_platform_catal.Text.trim code_code_platform_catal.Text.compare_text listed put_entry
    delete_entry new_configured_vendor_scope code_code_platform_catal.Sync.Vendor.add_vendors
    code_code_platform_catal.Sync.Vendor.add_vendor
    code_code_platform_catal.ModelIdentity.Slug.normalized_vendor_slug
    code_code_platform_catal.ModelIdentity.Slug.collapse_dashes
    code_code_platform_catal.Text.lower_byte
    code_code_platform_catal.ModelIdentity.Slug.vendor_separator
    code_code_platform_catal.Text.contains_text
    code_code_platform_catal.Models.Authority.is_preset_source_vendor_id
    code_code_platform_catal.Models.Authority.preset_source_vendor_ids
run_succeeds = refl

run_result : sync memory collected stored ≡ ((sync memory collected stored).0, true)
run_result = ap (λ b. ((sync memory collected stored).0, b)) run_succeeds

holds-sync_example : holds (sync memory collected stored).0 (codes "o" ++ 0 ∷ codes "x") ≡ (
    contains (keys collected.definitions) (codes "o" ++ 0 ∷ codes "x")
    || (holds stored (codes "o" ++ 0 ∷ codes "x")
        && not (is_stale collected (listed stored) (codes "o" ++ 0 ∷ codes "x"))))
holds-sync_example =
    holds-sync memory holds memory-IsStore collected collected-IsKeyed stored
      (sync memory collected stored).0 (listed stored) refl run_result (codes "o" ++ 0 ∷ codes "x")

-- A vendor that was not collected: its stored model is kept.
abbrev quiet : CollectedSnapshot
quiet = record {
  vendor_scope = scope;
  configured_vendor_ids = codes "o" ∷ [];
  managed_vendor_ids = codes "o" ∷ [];
  collected_vendor_ids = [];
  definitions = [];
}

quiet-IsKeyed : IsKeyed quiet.definitions
unfolding get
quiet-IsKeyed k c found = absurd (ground (arith, found))

quiet_holds : holds stored (codes "o" ++ 0 ∷ codes "x") ≡ true
unfolding get code_code_platform_catal.Prelude.list_beq
quiet_holds = refl

quiet_not_stale : is_stale quiet (listed stored) (codes "o" ++ 0 ∷ codes "x") ≡ false
unfolding is_stale listed code_code_platform_catal.Sync.Apply.Laws.drops identity_from_definition
    code_code_platform_catal.Models.Definition.new_surface_identity
    code_code_platform_catal.Text.trim code_code_platform_catal.Text.is_space
    code_code_platform_catal.Prelude.list_beq key
    code_code_platform_catal.Models.Definition.identity_key
    code_code_platform_catal.Sync.Apply.is_dropped contains keys
    code_code_platform_catal.Sync.Apply.should_keep_managed_definition
quiet_not_stale = refl

holds-sync_kept_example : holds (sync memory quiet stored).0 (codes "o" ++ 0 ∷ codes "x") ≡ true
holds-sync_kept_example =
    holds-sync_kept memory holds memory-IsStore quiet quiet-IsKeyed stored (listed stored) refl
      (codes "o" ++ 0 ∷ codes "x") quiet_holds quiet_not_stale

abbrev codex : Option Cli
codex = some (record {
  cli_id = codes "codex";
  official_version_source = some (npm_dist_tag (codes "@openai/codex") []);
})

abbrev known_versions : State
known_versions = (codes "codex", record { version = codes "1.0"; updated_at = 5 }) ∷ []

abbrev fetched : Source → Option Text
fetched source = some (codes "1.1")

abbrev unreachable : Source → Option Text
unreachable source = none

get-sync_example :
    get (sync_versions unreachable 9 known_versions (codex ∷ [])).0 (codes "codex")
    ≡ some (record { version = codes "1.0"; updated_at = 5 })
unfolding get sync_versions code_code_platform_catal.CliVersions.Source.resolve_version_source
    code_code_platform_catal.CliVersions.Syncer.Laws.is_configured
    code_code_platform_catal.CliVersions.Syncer.Laws.lists_source
    code_code_platform_catal.CliVersions.Syncer.Laws.has_source
    code_code_platform_catal.CliVersions.Syncer.Laws.snapshot_after_all
    code_code_platform_catal.CliVersions.Syncer.Laws.snapshot_after
    code_code_platform_catal.CliVersions.Source.resolve_source code_code_platform_catal.Text.trim
    code_code_platform_catal.Text.is_space code_code_platform_catal.Prelude.list_beq
get-sync_example = get-sync unreachable 9 known_versions (codex ∷ []) (codes "codex")

sync-IsChange_example :
    All (IsChange known_versions 9) (sync_versions fetched 9 known_versions (codex ∷ [])).1
sync-IsChange_example = sync-IsChange fetched 9 known_versions (codex ∷ [])
