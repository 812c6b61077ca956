-- ===== src/Tests/Entries.antt =====
-- The laws of collected entries, their sources and their parts at concrete values.
use code_code_platform_catal.Prelude.{
  ℕ, ◌≡◌, ◌≢◌, refl, sym, ◌∙◌, true, false, Bool, List, [], ◌∷◌, Option, none, some, arith,
  Ordering, flip, All, if◌then◌else◌, ◌==◌,
}
use code_code_platform_catal.Text.{Text, text_eq, codes, is_empty}
use code_code_platform_catal.ModelIdentity.Candidates.{ModelAlias, AliasKinds}
use code_code_platform_catal.Models.Types.{
  ModelVersion, PricingSummary, CollectedSource, CollectedEntry,
}
use code_code_platform_catal.Models.Authority.{compare_collected_entry_authority}
use code_code_platform_catal.Models.Pricing.{merge_pricing_summary}
use code_code_platform_catal.Models.Pricing.Laws.{merge_pricing_summary_assoc}
use code_code_platform_catal.Models.Definition.{merge_definition_metadata}
use code_code_platform_catal.Models.Definition.Laws.{merge_definition_metadata_assoc}
use code_code_platform_catal.Models.Collected.{merge_collected_entries, normalize_collected_sources}
use code_code_platform_catal.Models.Collected.Laws.{
  IsNormalSource, merge_collected_entries_comm, normalize_collected_sources-IsNormalSource,
}
use code_code_platform_catal.Sources.{CollectionContext, Enums}
use code_code_platform_catal.Sources.Hosted.{normalize_hosted_models, normalize_rich_models}
use code_code_platform_catal.Sources.Hosted.Laws.{
  IsVendorGroup, normalize_hosted_models-IsVendorGroup, normalize_rich_models-IsVendorGroup,
}
use code_code_platform_catal.Sources.Projections.Nvidia.{NvidiaModel, project_nvidia_model}
use code_code_platform_catal.Sources.Projections.Cerebras.{CerebrasModel, project_cerebras_model}
use code_code_platform_catal.Sources.OpenRouter.Normalize.{DefinitionCandidate, merge_definitions}
use code_code_platform_catal.Sources.OpenRouter.Laws.{merge_definitions_comm}

abbrev definition_named : Text → List (Option ModelAlias) → ModelVersion
definition_named name aliases = record {
  vendor_id = codes "meta";
  model_id = codes "llama";
  display_name = name;
  primary_shape = 0;
  supported_shapes = [];
  capabilities = [];
  input_modalities = [];
  output_modalities = [];
  context_spec = none;
  aliases = aliases;
}

abbrev price : Text → PricingSummary
price input = record {
  input = input;
  output = [];
  cache_read_input = [];
  cache_write_input = [];
  reasoning = [];
  image_input = [];
  audio_input = [];
  audio_output = [];
  request = [];
  currency = codes "USD";
  price_type = 0;
}

abbrev source_from : Text → CollectedSource
source_from id = record {
  vendor_id = codes "Meta";
  model_id = codes "llama";
  source_id = id;
  source_model_id = [];
  display_name = [];
  kind = 1;
  is_direct = true;
  authority_priority = 0;
  definition = none;
  badges = codes "free" ∷ codes "free" ∷ [];
  pricing = some (price (codes " 0.1 "));
}

abbrev entry_from : Text → Text → CollectedEntry
entry_from id name = record {
  definition = some (definition_named name []);
  badges = [];
  pricing = none;
  sources = some (source_from id) ∷ [];
}

abbrev cerebras_entry : CollectedEntry
cerebras_entry = entry_from (codes "cerebras") []

abbrev router_entry : CollectedEntry
router_entry = entry_from (codes "openrouter") (codes "Llama")

cerebras_first : compare_collected_entry_authority cerebras_entry router_entry ≡ Ordering.lt
unfolding compare_collected_entry_authority
    code_code_platform_catal.Models.Authority.collected_entry_authority_priority
    code_code_platform_catal.Models.Authority.max_priority
    code_code_platform_catal.Models.Authority.collected_source_priority
    code_code_platform_catal.Models.Authority.definition_source_authority_priority
    code_code_platform_catal.Models.Authority.lookup_source_authority_priority
    code_code_platform_catal.Prelude.get
    code_code_platform_catal.Models.Authority.source_authority_priorities
    code_code_platform_catal.Prelude.list_beq
    code_code_platform_catal.ModelIdentity.Slug.normalized_vendor_slug
    code_code_platform_catal.ModelIdentity.Slug.collapse_dashes code_code_platform_catal.Text.trim
    code_code_platform_catal.Text.is_space code_code_platform_catal.Text.lower_byte
    code_code_platform_catal.ModelIdentity.Slug.vendor_separator
    code_code_platform_catal.Text.contains_text
cerebras_first = refl

cerebras_differs : compare_collected_entry_authority cerebras_entry router_entry ≢ Ordering.eq
cerebras_differs same = cc (sym cerebras_first ∙ same)

merge_collected_entries_comm_example :
    merge_collected_entries cerebras_entry router_entry
    ≡ merge_collected_entries router_entry cerebras_entry
merge_collected_entries_comm_example =
    merge_collected_entries_comm cerebras_entry router_entry cerebras_differs

abbrev two_sources : List (Option CollectedSource)
two_sources =
    some (source_from (codes "openrouter")) ∷ none ∷ some (source_from (codes "cerebras")) ∷ []

normalize_collected_sources-IsNormalSource_example :
    All IsNormalSource (normalize_collected_sources two_sources)
normalize_collected_sources-IsNormalSource_example =
    normalize_collected_sources-IsNormalSource two_sources

merge_pricing_summary_assoc_example :
    merge_pricing_summary (merge_pricing_summary (some (price [])) (some (price (codes "1")))) none
    ≡ merge_pricing_summary
        (some (price []))
        (merge_pricing_summary (some (price (codes "1"))) none)
merge_pricing_summary_assoc_example =
    merge_pricing_summary_assoc (some (price [])) (some (price (codes "1"))) none

abbrev alias_list : Text → List (Option ModelAlias)
alias_list value = some (record { kind = 1; value = value }) ∷ none ∷ []

abbrev plain : Option ModelVersion
plain = some (definition_named [] (alias_list (codes "b")))

abbrev named : Option ModelVersion
named = some (definition_named (codes "Llama") (alias_list (codes "a")))

merge_definition_metadata_assoc_example :
    merge_definition_metadata (merge_definition_metadata plain named) none
    ≡ merge_definition_metadata plain (merge_definition_metadata named none)
merge_definition_metadata_assoc_example = merge_definition_metadata_assoc plain named none

abbrev kinds : AliasKinds
kinds = record { stable = 1; snapshot = 2 }

abbrev enums : Enums
enums = record {
  text = 1;
  image = 2;
  audio = 3;
  video = 4;
  tool_calling = 1;
  structured_output = 2;
  image_input = 3;
  chat_completions = 1;
  discovered = 1;
}

abbrev known : Text → Option Text
known owner = if owner == codes "meta" then some (codes "meta") else none

abbrev ctx : CollectionContext
ctx = record { resolve_vendor = known; alias_candidates = λ id. [] }

abbrev nvidia_models : List NvidiaModel
nvidia_models = record { id = codes "meta/llama-3"; owned_by = [] } ∷ []

normalize_hosted_models-IsVendorGroup_example : All IsVendorGroup (
    normalize_hosted_models kinds 1 ctx
      (codes "nvidia-integrate")
      nvidia_models
      project_nvidia_model)
normalize_hosted_models-IsVendorGroup_example =
    normalize_hosted_models-IsVendorGroup kinds 1 ctx (codes "nvidia-integrate") nvidia_models
      project_nvidia_model

abbrev cerebras_models : List CerebrasModel
cerebras_models =
    record {
      id = codes "llama3";
      owned_by = codes "meta";
      name = codes "Llama 3";
      hugging_face_id = [];
      prompt = codes "1";
      completion = [];
      function_calling = true;
      structured_outputs = false;
      vision = false;
      reasoning = false;
      max_context_length = 8192;
      max_completion_tokens = 4096;
    }
    ∷ []

normalize_rich_models-IsVendorGroup_example :
    All IsVendorGroup
      (normalize_rich_models kinds 1 ctx cerebras_models (project_cerebras_model enums))
normalize_rich_models-IsVendorGroup_example =
    normalize_rich_models-IsVendorGroup kinds 1 ctx cerebras_models (project_cerebras_model enums)

abbrev route : Text → Text → DefinitionCandidate
route id name = record {
  source_id = id;
  canonical_source_id = codes "meta/llama";
  definition = record {
    model_id = codes "llama";
    display_name = name;
    vendor_id = codes "meta";
    aliases = [];
    capabilities = [];
    input_modalities = [];
    output_modalities = [];
    context_spec = none;
  };
  sources = source_from id ∷ [];
}

routes_differ : codes "meta/llama:free" ≢ codes "meta/llama"
routes_differ same = ground (arith, same)

merge_definitions_comm_example :
    merge_definitions
      (route (codes "meta/llama:free") [])
      (route (codes "meta/llama") (codes "Llama"))
    ≡ merge_definitions
        (route (codes "meta/llama") (codes "Llama"))
        (route (codes "meta/llama:free") [])
merge_definitions_comm_example =
    merge_definitions_comm (route (codes "meta/llama:free") [])
      (route (codes "meta/llama") (codes "Llama")) routes_differ
