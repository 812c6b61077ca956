-- ===== src/Sources/Projections/Cerebras.antt =====
-- source/cerebras/normalize.go and the model of source/cerebras/client.go.
use code_code_platform_catal.Prelude.{
  ℕ, Bool, true, ◌&&◌, ◌||◌, List, [], ◌∷◌, ◌++◌, Option, none, some, if◌then◌else◌, compare,
  sort_by,
}
use code_code_platform_catal.Text.{Text, is_empty, trim_space, cut}
use code_code_platform_catal.ModelIdentity.Candidates.{AliasKinds}
use code_code_platform_catal.Models.Types.{PricingSummary, CollectedEntry}
use code_code_platform_catal.Models.Authority.{source_id_cerebras}
use code_code_platform_catal.Sources.{CollectionContext, Enums}
use code_code_platform_catal.Sources.Hosted.{RichModelProjection, normalize_rich_models}

-- `cerebras.Model`, its nested structs spread out.
pub record CerebrasModel : Type 0 where
  pub id : Text
  pub owned_by : Text
  pub name : Text
  pub hugging_face_id : Text
  pub prompt : Text
  pub completion : Text
  pub function_calling : Bool
  pub structured_outputs : Bool
  pub vision : Bool
  pub reasoning : Bool
  pub max_context_length : ℕ
  pub max_completion_tokens : ℕ

unfoldable pub normalize_pricing : CerebrasModel → Option PricingSummary
normalize_pricing item =
    if is_empty item.prompt && is_empty item.completion
    then none
    else some (record {
      input = item.prompt;
      output = item.completion;
      cache_read_input = [];
      cache_write_input = [];
      reasoning = [];
      image_input = [];
      audio_input = [];
      audio_output = [];
      request = [];
      currency = [];
      price_type = 0;
    })

abbrev pub when : Bool → ℕ → List ℕ
when b n = if b then n ∷ [] else []

unfoldable pub cerebras_capabilities : Enums → CerebrasModel → List ℕ
cerebras_capabilities enums item = sort_by compare (
    when item.function_calling enums.tool_calling
    ++ when item.structured_outputs enums.structured_output
    ++ when item.vision enums.image_input)

unfoldable pub cerebras_input_modalities : Enums → CerebrasModel → List ℕ
cerebras_input_modalities enums item =
    if item.vision then enums.image ∷ enums.text ∷ [] else enums.text ∷ []

-- The owner and the raw id: those of the Hugging Face id, if it has both.
unfoldable pub cerebras_identity : CerebrasModel → Text × Text
cerebras_identity item = elim (cut b'/' (trim_space item.hugging_face_id)) [
  | none ↦ (trim_space item.owned_by, trim_space item.id)
  | some (owner, model) ↦ (owner, model)
]

unfoldable pub project_cerebras_model : Enums → CerebrasModel → Option RichModelProjection
project_cerebras_model enums item =
    let owner = (cerebras_identity item).0 in
    let raw = (cerebras_identity item).1 in
    if is_empty owner || is_empty raw
    then none
    else some (record {
      owner = owner;
      raw_model_id = raw;
      definition = some (record {
        vendor_id = [];
        model_id = [];
        display_name = trim_space item.name;
        primary_shape = 0;
        supported_shapes = [];
        capabilities = cerebras_capabilities enums item;
        input_modalities = cerebras_input_modalities enums item;
        output_modalities = enums.text ∷ [];
        context_spec = some (record {
          max_context_tokens = item.max_context_length;
          max_output_tokens = item.max_completion_tokens;
        });
        aliases = [];
      });
      source = some (record {
        vendor_id = [];
        model_id = raw;
        source_id = source_id_cerebras;
        source_model_id = trim_space item.id;
        display_name = trim_space item.name;
        kind = enums.discovered;
        is_direct = true;
        authority_priority = 0;
        definition = none;
        badges = [];
        pricing = normalize_pricing item;
      });
      pricing = normalize_pricing item;
    })

unfoldable pub normalize_cerebras :
    AliasKinds → Enums → List CerebrasModel → CollectionContext → List (Text × List CollectedEntry)
normalize_cerebras kinds enums items ctx =
    normalize_rich_models kinds enums.discovered ctx items (project_cerebras_model enums)
