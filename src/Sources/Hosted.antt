-- ===== src/Sources/Hosted.antt =====
-- source/hosted.go: the helpers that the sources share. The maps are association lists.
pub mod Laws
use code_code_platform_catal.Prelude.{
  ℕ, Bool, true, false, List, [], ◌∷◌, ◌++◌, Option, none, some, Ordering, get, put, sort_by,
}
use code_code_platform_catal.Text.{Text, text_eq, trim_space, compare_text}
use code_code_platform_catal.ModelIdentity.Candidates.{
  ModelAlias, AliasKinds, normalize_external_model_identity,
}
use code_code_platform_catal.Models.Types.{
  ModelVersion, PricingSummary, CollectedSource, CollectedEntry,
}
use code_code_platform_catal.Models.Definition.{some_aliases}
use code_code_platform_catal.Sources.{CollectionContext}

-- What the callback of `NormalizeHostedModels` returns.
pub record HostedProjection : Type 0 where
  pub owner : Text
  pub raw_model_id : Text
  pub display_name : Text
  pub is_direct : Bool

-- `RichModelProjection`.
pub record RichModelProjection : Type 0 where
  pub owner : Text
  pub raw_model_id : Text
  pub definition : Option ModelVersion
  pub source : Option CollectedSource
  pub pricing : Option PricingSummary

abbrev pub Groups : Type 0
Groups = List (Text × List (Text × CollectedEntry))

abbrev pub empty_definition : ModelVersion
empty_definition = record {
  vendor_id = [];
  model_id = [];
  display_name = [];
  primary_shape = 0;
  supported_shapes = [];
  capabilities = [];
  input_modalities = [];
  output_modalities = [];
  context_spec = none;
  aliases = [];
}

-- The sources of the later entry are appended to the first one's.
unfoldable pub append_sources : CollectedEntry → CollectedEntry → CollectedEntry
append_sources current entry = record {
  definition = current.definition;
  badges = current.badges;
  pricing = current.pricing;
  sources = current.sources ++ entry.sources;
}

unfoldable pub add_model :
    Text → CollectedEntry → List (Text × CollectedEntry) → List (Text × CollectedEntry)
add_model model_id entry models = elim (get models model_id) [
  | none ↦ put model_id entry models
  | some current ↦ put model_id (append_sources current entry) models
]

abbrev pub models_of : Option (List (Text × CollectedEntry)) → List (Text × CollectedEntry)
models_of none = []
models_of (some models) = models

unfoldable pub add_entry : Text → Text → CollectedEntry → Groups → Groups
add_entry vendor_id model_id entry groups =
    put vendor_id (add_model model_id entry (models_of (get groups vendor_id))) groups

abbrev pub model_id_of : Option ModelVersion → Text
model_id_of none = []
model_id_of (some d) = d.model_id

unfoldable pub compare_entry : CollectedEntry → CollectedEntry → Ordering
compare_entry a b = compare_text (model_id_of a.definition) (model_id_of b.definition)

unfoldable pub entries_of : List (Text × CollectedEntry) → List CollectedEntry
entries_of [] = []
entries_of ((_, entry) ∷ models) = entry ∷ entries_of models

unfoldable pub sort_by_vendor : Groups → List (Text × List CollectedEntry)
sort_by_vendor [] = []
sort_by_vendor ((vendor_id, models) ∷ groups) =
    (vendor_id, sort_by compare_entry (entries_of models)) ∷ sort_by_vendor groups

module _ (kinds : AliasKinds) (discovered : ℕ) (ctx : CollectionContext) where
  unfoldable pub hosted_entry :
      Text → Text → Text → List ModelAlias → HostedProjection → CollectedEntry
  hosted_entry source_id vendor_id model_id aliases p = record {
    definition = some (record {
      vendor_id = vendor_id;
      model_id = model_id;
      display_name = trim_space p.display_name;
      primary_shape = 0;
      supported_shapes = [];
      capabilities = [];
      input_modalities = [];
      output_modalities = [];
      context_spec = none;
      aliases = some_aliases aliases;
    });
    badges = [];
    pricing = none;
    sources =
        some (record {
          vendor_id = vendor_id;
          model_id = p.raw_model_id;
          source_id = source_id;
          source_model_id = [];
          display_name = trim_space p.display_name;
          kind = discovered;
          is_direct = p.is_direct;
          authority_priority = 0;
          definition = none;
          badges = [];
          pricing = none;
        })
        ∷ [];
  }

  unfoldable pub hosted_step : Text → Groups → Option HostedProjection → Groups
  hosted_step source_id groups none = groups
  hosted_step source_id groups (some p) = elim (ctx.resolve_vendor p.owner) [
    | none ↦ groups
    | some vendor_id ↦ elim (normalize_external_model_identity kinds p.raw_model_id) [
      | none ↦ groups
      | some (model_id, aliases) ↦
          add_entry vendor_id model_id (hosted_entry source_id vendor_id model_id aliases p) groups
    ]
  ]

  unfoldable pub rich_definition : Text → Text → List ModelAlias → ModelVersion → ModelVersion
  rich_definition vendor_id model_id aliases d = record {
    vendor_id = vendor_id;
    model_id = model_id;
    display_name = d.display_name;
    primary_shape = d.primary_shape;
    supported_shapes = d.supported_shapes;
    capabilities = d.capabilities;
    input_modalities = d.input_modalities;
    output_modalities = d.output_modalities;
    context_spec = d.context_spec;
    aliases = some_aliases aliases;
  }

  unfoldable pub rich_source : Text → CollectedSource → CollectedSource
  rich_source vendor_id s = record {
    vendor_id = vendor_id;
    model_id = s.model_id;
    source_id = s.source_id;
    source_model_id = s.source_model_id;
    display_name = s.display_name;
    kind = s.kind;
    is_direct = s.is_direct;
    authority_priority = s.authority_priority;
    definition = s.definition;
    badges = s.badges;
    pricing = s.pricing;
  }

  unfoldable pub rich_entry : Text → Text → List ModelAlias → RichModelProjection → CollectedEntry
  rich_entry vendor_id model_id aliases p = record {
    definition = elim p.definition [
      | none ↦ some (rich_definition vendor_id model_id aliases empty_definition)
      | some d ↦ some (rich_definition vendor_id model_id aliases d)
    ];
    badges = [];
    pricing = p.pricing;
    sources = elim p.source [ none ↦ [] | some s ↦ some (rich_source vendor_id s) ∷ [] ];
  }

  unfoldable pub rich_step : Groups → Option RichModelProjection → Groups
  rich_step groups none = groups
  rich_step groups (some p) = elim (ctx.resolve_vendor p.owner) [
    | none ↦ groups
    | some vendor_id ↦ elim (normalize_external_model_identity kinds p.raw_model_id) [
      | none ↦ groups
      | some (model_id, aliases) ↦
          add_entry vendor_id model_id (rich_entry vendor_id model_id aliases p) groups
    ]
  ]

  module _ {T : Type 0} where
    unfoldable pub hosted_groups : Text → (T → Option HostedProjection) → Groups → List T → Groups
    hosted_groups source_id project groups [] = groups
    hosted_groups source_id project groups (item ∷ items) =
        hosted_groups source_id project (hosted_step source_id groups (project item)) items

    unfoldable pub normalize_hosted_models :
        Text → List T → (T → Option HostedProjection) → List (Text × List CollectedEntry)
    normalize_hosted_models source_id items project =
        sort_by_vendor (hosted_groups source_id project [] items)

    unfoldable pub rich_groups : (T → Option RichModelProjection) → Groups → List T → Groups
    rich_groups project groups [] = groups
    rich_groups project groups (item ∷ items) =
        rich_groups project (rich_step groups (project item)) items

    unfoldable pub normalize_rich_models :
        List T → (T → Option RichModelProjection) → List (Text × List CollectedEntry)
    normalize_rich_models items project = sort_by_vendor (rich_groups project [] items)
