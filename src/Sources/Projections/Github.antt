-- ===== src/Sources/Projections/Github.antt =====
-- source/github/github.go.
use code_code_platform_catal.Prelude.{
  ℕ, Bool, true, false, ◌||◌, List, [], ◌∷◌, ◌++◌, Option, none, some, if◌then◌else◌, ◌==◌, nat_eq,
}
use code_code_platform_catal.Text.{
  Text, codes, text_eq, is_empty, trim_space, to_lower, cut, contains_text,
}
use code_code_platform_catal.ModelIdentity.Candidates.{AliasKinds}
use code_code_platform_catal.Models.Types.{CollectedEntry}
use code_code_platform_catal.Models.Authority.{source_id_github_models}
use code_code_platform_catal.Models.Definition.{is_nil}
use code_code_platform_catal.Sources.{CollectionContext, Enums, parse_modalities, sorted_set}
use code_code_platform_catal.Sources.Hosted.{RichModelProjection, normalize_rich_models}

-- `github.Model`.
pub record GithubModel : Type 0 where
  pub id : Text
  pub name : Text
  pub supported_input_modalities : List Text
  pub supported_output_modalities : List Text
  pub capabilities : List Text
  pub max_input_tokens : ℕ
  pub max_output_tokens : ℕ

unfoldable pub has_embeddings : List Text → Bool
has_embeddings [] = false
has_embeddings (modality ∷ modalities) =
    trim_space (to_lower modality) == codes "embeddings" || has_embeddings modalities

unfoldable pub should_skip_github : Enums → GithubModel → Bool
should_skip_github enums item =
    contains_text (codes "preview") (to_lower (trim_space item.id))
    || contains_text (codes "preview") (to_lower (trim_space item.name))
    || has_embeddings item.supported_output_modalities
    || is_nil (parse_modalities enums item.supported_output_modalities)

-- One value of the set: a named capability, or an input modality.
pub data Feature : Type 0 where
  capability : Text → Feature
  modality : Text → Feature

unfoldable pub feature_of : Enums → Feature → Option ℕ
feature_of enums (capability name) =
    let c = trim_space (to_lower name) in
    if c == codes "tool-calling"
    then some enums.tool_calling
    else if c == codes "structured-output" || c == codes "structured-outputs"
    then some enums.structured_output
    else none
feature_of enums (modality name) =
    if trim_space (to_lower name) == codes "image" then some enums.image_input else none

abbrev pub features_of : (Text → Feature) → List Text → List Feature
features_of f [] = []
features_of f (name ∷ names) = f name ∷ features_of f names

unfoldable pub github_capabilities : Enums → GithubModel → List ℕ
github_capabilities enums item = sorted_set (feature_of enums) (
    features_of capability item.capabilities
    ++ features_of modality item.supported_input_modalities)

unfoldable pub github_projection : Enums → GithubModel → Text → Text → RichModelProjection
github_projection enums item owner raw = record {
  owner = owner;
  raw_model_id = raw;
  definition = some (record {
    vendor_id = [];
    model_id = [];
    display_name = trim_space item.name;
    primary_shape = enums.chat_completions;
    supported_shapes = enums.chat_completions ∷ [];
    capabilities = github_capabilities enums item;
    input_modalities = parse_modalities enums item.supported_input_modalities;
    output_modalities = parse_modalities enums item.supported_output_modalities;
    context_spec = some (record {
      max_context_tokens = item.max_input_tokens;
      max_output_tokens = item.max_output_tokens;
    });
    aliases = [];
  });
  source = some (record {
    vendor_id = [];
    model_id = raw;
    source_id = source_id_github_models;
    source_model_id = trim_space item.id;
    display_name = trim_space item.name;
    kind = enums.discovered;
    is_direct = true;
    authority_priority = 0;
    definition = none;
    badges = [];
    pricing = none;
  });
  pricing = none;
}

unfoldable pub project_github_model : Enums → GithubModel → Option RichModelProjection
project_github_model enums item =
    if should_skip_github enums item || is_empty (trim_space item.id)
    then none
    else elim (cut b'/' (trim_space item.id)) [
      | none ↦ none
      | some (owner, raw) ↦ some (github_projection enums item owner raw)
    ]

unfoldable pub normalize_github :
    AliasKinds → Enums → List GithubModel → CollectionContext → List (Text × List CollectedEntry)
normalize_github kinds enums items ctx =
    normalize_rich_models kinds enums.discovered ctx items (project_github_model enums)
