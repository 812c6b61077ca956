-- ===== src/Sync/Snapshot.antt =====
-- sync/snapshot.go and sync/vendor_support.go: the definitions that one collection gives. The maps
-- `grouped` and `definitions` are association lists; Go visits `grouped` in any order. The check
-- `modelv1.ValidateDefinition` is not under the repository's modelled packages: it is the parameter
-- `valid`.
pub mod Laws
use code_code_platform_catal.Prelude.{
  ℕ, Bool, List, [], ◌∷◌, Option, none, some, if◌then◌else◌, ◌==◌, get, put,
}
use code_code_platform_catal.Text.{Text, text_eq, is_empty, trim_space}
use code_code_platform_catal.Models.Types.{ModelVersion, CollectedEntry}
use code_code_platform_catal.Models.Badges.{normalize_definition_source_badges}
use code_code_platform_catal.Models.Pricing.{clone_pricing_summary}
use code_code_platform_catal.Models.Definition.{
  Defaults, apply_create_defaults, identity_from_definition, key,
}
use code_code_platform_catal.Models.Collected.{
  normalize_collected_sources, some_sources, merge_collected_entries,
}
use code_code_platform_catal.Sync.Vendor.{VendorScope, add}

-- `collectedDefinitionsSnapshot`; a field that the code copies from the scope is kept as such.
pub record CollectedSnapshot : Type 0 where
  pub vendor_scope : VendorScope
  pub configured_vendor_ids : List Text
  pub managed_vendor_ids : List Text
  pub collected_vendor_ids : List Text
  pub definitions : List (Text × CollectedEntry)

unfoldable pub new_collected_definitions_snapshot : VendorScope → CollectedSnapshot
new_collected_definitions_snapshot scope = record {
  vendor_scope = scope;
  configured_vendor_ids = scope.canonical_ids;
  managed_vendor_ids = scope.managed_ids;
  collected_vendor_ids = [];
  definitions = [];
}

module _ (defaults : Defaults) (valid : ModelVersion → Bool) where
  -- The definition with its ids and its name set, before the defaults.
  unfoldable pub supported_definition : ModelVersion → Text → Text → ModelVersion
  supported_definition d vendor_id model_id = record {
    vendor_id = vendor_id;
    model_id = model_id;
    display_name = if is_empty (trim_space d.display_name) then model_id else d.display_name;
    primary_shape = d.primary_shape;
    supported_shapes = d.supported_shapes;
    capabilities = d.capabilities;
    input_modalities = d.input_modalities;
    output_modalities = d.output_modalities;
    context_spec = d.context_spec;
    aliases = d.aliases;
  }

  abbrev pub validated : ModelVersion → Option ModelVersion
  validated d = if valid d then some d else none

  -- An error is `none`.
  unfoldable pub vendor_support_definition_candidate :
      Text → Option ModelVersion → Option ModelVersion
  vendor_support_definition_candidate vendor_id none = none
  vendor_support_definition_candidate vendor_id (some source) =
      let canonical_id = trim_space source.model_id in
      let support_vendor_id = trim_space vendor_id in
      let source_vendor_id = trim_space source.vendor_id in
      if is_empty canonical_id
      then none
      else if is_empty source_vendor_id
      then validated (
          apply_create_defaults defaults
            (supported_definition source support_vendor_id canonical_id))
      else if source_vendor_id == support_vendor_id
      then validated (
          apply_create_defaults defaults
            (supported_definition source source.vendor_id canonical_id))
      else none

  unfoldable pub collected_entry : ModelVersion → CollectedEntry → CollectedEntry
  collected_entry candidate item = record {
    definition = some candidate;
    badges = normalize_definition_source_badges item.badges;
    pricing = clone_pricing_summary item.pricing;
    sources = some_sources (normalize_collected_sources item.sources);
  }

  unfoldable pub put_collected :
      Text → CollectedEntry → List (Text × CollectedEntry) → List (Text × CollectedEntry)
  put_collected k collected definitions = elim (get definitions k) [
    | none ↦ put k collected definitions
    | some current ↦ put k (merge_collected_entries current collected) definitions
  ]

  -- The body of the loop over the items of a vendor.
  unfoldable pub merge_item :
      Text → List (Text × CollectedEntry) → CollectedEntry → List (Text × CollectedEntry)
  merge_item vendor_id definitions item =
      elim (vendor_support_definition_candidate vendor_id item.definition) [
        | none ↦ definitions
        | some candidate ↦ elim (identity_from_definition (some candidate)) [
          | none ↦ definitions
          | some identity ↦
              put_collected (key identity) (collected_entry candidate item) definitions
        ]
      ]

  unfoldable pub merge_items :
      Text → List (Text × CollectedEntry) → List CollectedEntry → List (Text × CollectedEntry)
  merge_items vendor_id definitions [] = definitions
  merge_items vendor_id definitions (item ∷ items) =
      merge_items vendor_id (merge_item vendor_id definitions item) items

  -- The body of the loop over the vendors.
  unfoldable pub merge_vendor : CollectedSnapshot → Text × List CollectedEntry → CollectedSnapshot
  merge_vendor snapshot (vendor_id, []) = snapshot
  merge_vendor snapshot (vendor_id, item ∷ items) = record {
    vendor_scope = snapshot.vendor_scope;
    configured_vendor_ids = snapshot.configured_vendor_ids;
    managed_vendor_ids = snapshot.managed_vendor_ids;
    collected_vendor_ids = add vendor_id snapshot.collected_vendor_ids;
    definitions = merge_items vendor_id snapshot.definitions (item ∷ items);
  }

  unfoldable pub merge_collected_definitions_snapshot :
      CollectedSnapshot → List (Text × List CollectedEntry) → CollectedSnapshot
  merge_collected_definitions_snapshot snapshot [] = snapshot
  merge_collected_definitions_snapshot snapshot (group ∷ grouped) =
      merge_collected_definitions_snapshot (merge_vendor snapshot group) grouped
