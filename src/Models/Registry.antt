-- ===== src/Models/Registry.antt =====
-- model_registry_entry.go: the entry that the registry stores for a collected model.
use code_code_platform_catal.Prelude.{
  ℕ, Bool, List, [], ◌∷◌, Option, none, some, ◌||◌, if◌then◌else◌,
}
use code_code_platform_catal.Text.{Text, is_empty, trim_space}
use code_code_platform_catal.ModelIdentity.Slug.{normalized_vendor_slug}
use code_code_platform_catal.Models.Types.{
  ModelVersion, PricingSummary, CollectedSource, CollectedEntry,
}
use code_code_platform_catal.Models.Badges.{normalize_definition_source_badges}
use code_code_platform_catal.Models.Pricing.{normalize_pricing_summary}
use code_code_platform_catal.Models.Collected.{
  normalize_collected_sources, normalize_collected_source,
}

-- `modelservicev1.RegistryModelSource`.
pub record RegistrySource : Type 0 where
  pub source_id : Text
  pub kind : ℕ
  pub is_direct : Bool
  pub source_model_id : Text
  pub definition : Option ModelVersion
  pub badges : List Text
  pub pricing : Option PricingSummary

-- `modelservicev1.ModelRegistryEntry`.
pub record RegistryEntry : Type 0 where
  pub definition : Option ModelVersion
  pub badges : List Text
  pub pricing : Option PricingSummary
  pub sources : List RegistrySource

unfoldable pub normalize_registry_model_source : RegistrySource → RegistrySource
normalize_registry_model_source s = record {
  source_id = normalized_vendor_slug s.source_id;
  kind = s.kind;
  is_direct = s.is_direct;
  source_model_id = trim_space s.source_model_id;
  definition = s.definition;
  badges = normalize_definition_source_badges s.badges;
  pricing = normalize_pricing_summary s.pricing;
}

unfoldable pub spec_source_definition : CollectedSource → Option ModelVersion
spec_source_definition s =
    let vendor = normalized_vendor_slug s.vendor_id in
    let model = trim_space s.model_id in
    elim s.definition [
      | some definition ↦ some definition
      | none ↦
          if is_empty vendor || is_empty model
          then none
          else some (record {
            vendor_id = vendor;
            model_id = model;
            display_name = trim_space s.display_name;
            primary_shape = 0;
            supported_shapes = [];
            capabilities = [];
            input_modalities = [];
            output_modalities = [];
            context_spec = none;
            aliases = [];
          })
    ]

unfoldable pub spec_source_model_id : CollectedSource → Option ModelVersion → Text
spec_source_model_id s definition =
    let source_model = trim_space s.source_model_id in
    if is_empty source_model
    then elim definition [ some d ↦ trim_space d.model_id | none ↦ trim_space s.model_id ]
    else source_model

unfoldable pub registry_source : CollectedSource → RegistrySource
registry_source s =
    let d = spec_source_definition s in
    normalize_registry_model_source (record {
      source_id = s.source_id;
      kind = s.kind;
      is_direct = s.is_direct;
      source_model_id = spec_source_model_id s d;
      definition = d;
      badges = normalize_definition_source_badges s.badges;
      pricing = normalize_pricing_summary s.pricing;
    })

-- The loop of `protoRegistrySourcesFromCollectedSources`, which normalizes each source once more.
unfoldable pub registry_sources : List CollectedSource → List RegistrySource
registry_sources [] = []
registry_sources (s ∷ sources) = elim (normalize_collected_source (some s)) [
  | none ↦ registry_sources sources
  | some t ↦ registry_source t ∷ registry_sources sources
]

unfoldable pub proto_registry_sources_from_collected_sources :
    List (Option CollectedSource) → List RegistrySource
proto_registry_sources_from_collected_sources sources =
    registry_sources (normalize_collected_sources sources)

unfoldable pub new_model_registry_entry : Option CollectedEntry → Option RegistryEntry
new_model_registry_entry none = none
new_model_registry_entry (some e) = some (record {
  definition = e.definition;
  badges = normalize_definition_source_badges e.badges;
  pricing = normalize_pricing_summary e.pricing;
  sources = proto_registry_sources_from_collected_sources e.sources;
})
