-- ===== src/Sources/OpenRouter/Normalize.antt =====
-- source/openrouter/normalize.go. The fields of the SDK's model that the code reads are the record
-- `OpenRouterModel`.
use code_code_platform_catal.Prelude.{
  ℕ, Bool, true, false, not, ◌&&◌, ◌||◌, List, [], ◌∷◌, ◌++◌, Option, none, some, if◌then◌else◌,
  ◌==◌, nat_eq, ltb, get, put, contains, map, sort_by,
}
use code_code_platform_catal.Text.{
  Text, codes, text_eq, is_empty, trim_space, contains_text, compare_text,
}
use code_code_platform_catal.ModelIdentity.Candidates.{ModelAlias, AliasKinds}
use code_code_platform_catal.Models.Types.{
  ContextSpec, ModelVersion, CollectedSource, CollectedEntry,
}
use code_code_platform_catal.Models.Authority.{source_id_openrouter, is_lt}
use code_code_platform_catal.Models.Definition.{fill_text, fill_context, fill_list, some_aliases}
use code_code_platform_catal.Sources.{CollectionContext, Enums, parse_modalities, sorted_set}
use code_code_platform_catal.Sources.Hosted.{compare_entry}
use code_code_platform_catal.Sources.OpenRouter.Identity.{
  RouteIdentity, parse_vendor_model_id, resolve_identity, merge_aliases,
}

-- `components.Model` of the SDK.
pub record OpenRouterModel : Type 0 where
  pub id : Text
  pub canonical_slug : Text
  pub name : Text
  pub context_length : ℕ
  pub max_completion_tokens : Option ℕ
  pub supported_parameters : List Text
  pub input_modalities : List Text
  pub output_modalities : List Text

-- A definition as the routes carry it: its aliases are never nil.
pub record RouteDefinition : Type 0 where
  pub model_id : Text
  pub display_name : Text
  pub vendor_id : Text
  pub aliases : List ModelAlias
  pub capabilities : List ℕ
  pub input_modalities : List ℕ
  pub output_modalities : List ℕ
  pub context_spec : Option ContextSpec

-- `definitionCandidate`.
pub record DefinitionCandidate : Type 0 where
  pub source_id : Text
  pub canonical_source_id : Text
  pub definition : RouteDefinition
  pub sources : List CollectedSource

-- One value of the set of capabilities: a parameter, or an input modality.
pub data RouteFeature : Type 0 where
  parameter : Text → RouteFeature
  modality : Text → RouteFeature

unfoldable pub route_feature_of : Enums → RouteFeature → Option ℕ
route_feature_of enums (parameter name) =
    let p = trim_space name in
    if p == codes "tools" || p == codes "tool_choice"
    then some enums.tool_calling
    else if p == codes "structured_outputs" || p == codes "response_format"
    then some enums.structured_output
    else none
route_feature_of enums (modality name) =
    if trim_space name == codes "image" then some enums.image_input else none

abbrev pub route_features : (Text → RouteFeature) → List Text → List RouteFeature
route_features f [] = []
route_features f (name ∷ names) = f name ∷ route_features f names

unfoldable pub parse_capabilities : Enums → List Text → List Text → List ℕ
parse_capabilities enums parameters input_modalities =
    sorted_set (route_feature_of enums)
      (route_features parameter parameters ++ route_features modality input_modalities)

abbrev pub tokens_or_zero : Option ℕ → ℕ
tokens_or_zero none = 0
tokens_or_zero (some n) = n

unfoldable pub route_candidate :
    Enums → OpenRouterModel → Text → Text → Text → Text → RouteIdentity → DefinitionCandidate
route_candidate enums item source_id canonical source_model_id vendor_id identity = record {
  source_id = source_id;
  canonical_source_id = canonical;
  definition = record {
    model_id = identity.model_id;
    display_name = trim_space item.name;
    vendor_id = vendor_id;
    aliases = identity.aliases;
    capabilities = parse_capabilities enums item.supported_parameters item.input_modalities;
    input_modalities = parse_modalities enums item.input_modalities;
    output_modalities = parse_modalities enums item.output_modalities;
    context_spec = some (record {
      max_context_tokens = item.context_length;
      max_output_tokens = tokens_or_zero item.max_completion_tokens;
    });
  };
  sources =
      record {
        vendor_id = vendor_id;
        model_id = source_model_id;
        source_id = source_id_openrouter;
        source_model_id = source_id;
        display_name = trim_space item.name;
        kind = enums.discovered;
        is_direct = false;
        authority_priority = 0;
        definition = none;
        badges = [];
        pricing = none;
      }
      ∷ [];
}

unfoldable pub normalize_model :
    AliasKinds → Enums → OpenRouterModel → CollectionContext → Option (Text × DefinitionCandidate)
normalize_model kinds enums item ctx =
    let source_id = trim_space item.id in
    let slug = trim_space item.canonical_slug in
    let canonical = if is_empty slug then source_id else slug in
    elim (parse_vendor_model_id source_id) [
      | none ↦ none
      | some (_, source_model_id) ↦ elim (resolve_identity kinds source_id canonical ctx) [
        | none ↦ none
        | some (vendor_id, identity) ↦ some (
          vendor_id,
          route_candidate enums item source_id canonical source_model_id vendor_id identity,
        )
      ]
    ]

unfoldable pub candidate_priority : DefinitionCandidate → ℕ
candidate_priority c =
    if c.source_id == c.canonical_source_id
    then 0
    else if not (contains_text (codes ":") c.source_id)
    then 1
    else 2

-- The candidate is preferred to the current one.
unfoldable pub is_preferred : DefinitionCandidate → DefinitionCandidate → Bool
is_preferred candidate current =
    ltb (candidate_priority candidate) (candidate_priority current)
    || (candidate_priority candidate == candidate_priority current
        && is_lt (compare_text candidate.source_id current.source_id))

unfoldable pub append_new_sources :
    List Text → List CollectedSource → List CollectedSource → List CollectedSource
append_new_sources seen out [] = out
append_new_sources seen out (s ∷ sources) = elim (contains seen s.source_model_id) [
  | true ↦ append_new_sources seen out sources
  | false ↦ append_new_sources (s.source_model_id ∷ seen) (out ++ s ∷ []) sources
]

abbrev pub source_model : CollectedSource → Text
source_model s = s.source_model_id

unfoldable pub merge_sources : List CollectedSource → List CollectedSource → List CollectedSource
merge_sources primary fallback = append_new_sources (map source_model primary) primary fallback

unfoldable pub fill_route_definition : RouteDefinition → RouteDefinition → RouteDefinition
fill_route_definition d f = record {
  model_id = d.model_id;
  display_name = fill_text d.display_name f.display_name;
  vendor_id = d.vendor_id;
  aliases = merge_aliases d.aliases f.aliases;
  capabilities = fill_list d.capabilities f.capabilities;
  input_modalities = fill_list d.input_modalities f.input_modalities;
  output_modalities = fill_list d.output_modalities f.output_modalities;
  context_spec = fill_context d.context_spec f.context_spec;
}

unfoldable pub fill_candidate : DefinitionCandidate → DefinitionCandidate → DefinitionCandidate
fill_candidate preferred fallback = record {
  source_id = preferred.source_id;
  canonical_source_id = preferred.canonical_source_id;
  definition = fill_route_definition preferred.definition fallback.definition;
  sources = merge_sources preferred.sources fallback.sources;
}

unfoldable pub merge_definitions : DefinitionCandidate → DefinitionCandidate → DefinitionCandidate
merge_definitions current candidate =
    if is_preferred candidate current
    then fill_candidate candidate current
    else fill_candidate current candidate

abbrev pub RouteGroups : Type 0
RouteGroups = List (Text × List (Text × DefinitionCandidate))

abbrev pub routes_of :
    Option (List (Text × DefinitionCandidate)) → List (Text × DefinitionCandidate)
routes_of none = []
routes_of (some routes) = routes

unfoldable pub add_route :
    Text
    → DefinitionCandidate
    → List (Text × DefinitionCandidate)
    → List (Text × DefinitionCandidate)
add_route model_id candidate routes = elim (get routes model_id) [
  | none ↦ put model_id candidate routes
  | some current ↦ put model_id (merge_definitions current candidate) routes
]

unfoldable pub route_step : RouteGroups → Option (Text × DefinitionCandidate) → RouteGroups
route_step groups none = groups
route_step groups (some (vendor_id, candidate)) =
    put vendor_id
      (add_route candidate.definition.model_id candidate (routes_of (get groups vendor_id))) groups

unfoldable pub route_definition_version : RouteDefinition → ModelVersion
route_definition_version d = record {
  vendor_id = d.vendor_id;
  model_id = d.model_id;
  display_name = d.display_name;
  primary_shape = 0;
  supported_shapes = [];
  capabilities = d.capabilities;
  input_modalities = d.input_modalities;
  output_modalities = d.output_modalities;
  context_spec = d.context_spec;
  aliases = some_aliases d.aliases;
}

unfoldable pub some_sources : List CollectedSource → List (Option CollectedSource)
some_sources [] = []
some_sources (s ∷ sources) = some s ∷ some_sources sources

unfoldable pub route_entries : List (Text × DefinitionCandidate) → List CollectedEntry
unfolding some_sources
route_entries [] = []
route_entries ((_, candidate) ∷ routes) =
    record {
      definition = some (route_definition_version candidate.definition);
      badges = [];
      pricing = none;
      sources = some_sources candidate.sources;
    }
    ∷ route_entries routes

unfoldable pub route_vendors : RouteGroups → List (Text × List CollectedEntry)
route_vendors [] = []
route_vendors ((vendor_id, routes) ∷ groups) =
    (vendor_id, sort_by compare_entry (route_entries routes)) ∷ route_vendors groups

unfoldable pub route_groups :
    AliasKinds → Enums → CollectionContext → RouteGroups → List OpenRouterModel → RouteGroups
route_groups kinds enums ctx groups [] = groups
route_groups kinds enums ctx groups (item ∷ items) =
    route_groups kinds enums ctx (route_step groups (normalize_model kinds enums item ctx)) items

unfoldable pub normalize_open_router :
    AliasKinds
    → Enums
    → List OpenRouterModel
    → CollectionContext
    → List (Text × List CollectedEntry)
normalize_open_router kinds enums items ctx = route_vendors (route_groups kinds enums ctx [] items)
