-- ===== src/Sources/Projections/Nvidia.antt =====
-- source/nvidia/nvidia.go.
use code_code_platform_catal.Prelude.{
  Bool, true, ◌||◌, List, [], ◌∷◌, Option, none, some, if◌then◌else◌,
}
use code_code_platform_catal.Text.{Text, codes, is_empty, trim_space, cut}
use code_code_platform_catal.ModelIdentity.Candidates.{
  AliasKinds, has_channel_token, has_model_token,
}
use code_code_platform_catal.Models.Types.{CollectedEntry}
use code_code_platform_catal.Models.Authority.{source_id_nvidia_integrate}
use code_code_platform_catal.Sources.{CollectionContext, Enums}
use code_code_platform_catal.Sources.Hosted.{HostedProjection, normalize_hosted_models}

-- `nvidia.Model`.
pub record NvidiaModel : Type 0 where
  pub id : Text
  pub owned_by : Text

abbrev pub nvidia_tokens : List Text
nvidia_tokens =
    codes "asr"
    ∷ codes "calibration"
    ∷ codes "clip"
    ∷ codes "embed"
    ∷ codes "embedcode"
    ∷ codes "embedding"
    ∷ codes "embedqa"
    ∷ codes "guard"
    ∷ codes "moderation"
    ∷ codes "nemoguard"
    ∷ codes "nvclip"
    ∷ codes "parse"
    ∷ codes "pii"
    ∷ codes "rerank"
    ∷ codes "retriever"
    ∷ codes "reward"
    ∷ codes "safety"
    ∷ codes "transcribe"
    ∷ codes "translate"
    ∷ codes "tts"
    ∷ []

unfoldable pub should_skip_nvidia : Text → Bool
should_skip_nvidia raw = has_channel_token raw || has_model_token raw nvidia_tokens

unfoldable pub project_nvidia_model : NvidiaModel → Option HostedProjection
project_nvidia_model item = elim (cut b'/' (trim_space item.id)) [
  | none ↦ none
  | some (owner, raw) ↦
      let owned_by = trim_space item.owned_by in
      if should_skip_nvidia raw
      then none
      else some (record {
        owner = if is_empty owned_by then owner else owned_by;
        raw_model_id = raw;
        display_name = raw;
        is_direct = true;
      })
]

unfoldable pub normalize_nvidia :
    AliasKinds → Enums → List NvidiaModel → CollectionContext → List (Text × List CollectedEntry)
normalize_nvidia kinds enums items ctx =
    normalize_hosted_models kinds enums.discovered ctx source_id_nvidia_integrate items
      project_nvidia_model
