-- ===== src/Sources/Projections/ModelScope.antt =====
-- source/modelscope/modelscope.go.
use code_code_platform_catal.Prelude.{ℕ, true, ◌||◌, List, Option, none, some, if◌then◌else◌}
use code_code_platform_catal.Text.{Text, codes, has_prefix, trim_space, cut}
use code_code_platform_catal.ModelIdentity.Slug.{normalize_external_model_slug}
use code_code_platform_catal.ModelIdentity.Candidates.{AliasKinds}
use code_code_platform_catal.Models.Types.{CollectedEntry}
use code_code_platform_catal.Models.Authority.{source_id_modelscope}
use code_code_platform_catal.Sources.{CollectionContext, Enums}
use code_code_platform_catal.Sources.Hosted.{HostedProjection, normalize_hosted_models}

-- `modelscope.Model`.
pub record ModelScopeModel : Type 0 where
  pub id : Text
  pub created : ℕ

-- The vendor by the model's name, for an owner that is not known.
unfoldable pub vendor_by_model : CollectionContext → Text → Option Text
vendor_by_model ctx model =
    if has_prefix (codes "c4ai-command-r") model || has_prefix (codes "command-r") model
    then ctx.resolve_vendor (codes "cohere")
    else if has_prefix (codes "llama-") model
    then ctx.resolve_vendor (codes "meta")
    else if has_prefix (codes "gui-owl-") model
    then ctx.resolve_vendor (codes "tongyi-lab")
    else if has_prefix (codes "qwen-image-") model
    then ctx.resolve_vendor (codes "qwen")
    else none

unfoldable pub resolve_model_scope_vendor : CollectionContext → Text → Text → Option Text
resolve_model_scope_vendor ctx owner raw = elim (ctx.resolve_vendor owner) [
  | some vendor_id ↦ some vendor_id
  | none ↦ vendor_by_model ctx (normalize_external_model_slug raw)
]

unfoldable pub project_model_scope_model :
    CollectionContext → ModelScopeModel → Option HostedProjection
project_model_scope_model ctx item = elim (cut b'/' (trim_space item.id)) [
  | none ↦ none
  | some (owner, raw) ↦ elim (resolve_model_scope_vendor ctx (trim_space owner) (trim_space raw)) [
    | none ↦ none
    | some vendor_id ↦ some (record {
      owner = vendor_id;
      raw_model_id = trim_space raw;
      display_name = trim_space raw;
      is_direct = true;
    })
  ]
]

unfoldable pub normalize_model_scope :
    AliasKinds
    → Enums
    → List ModelScopeModel
    → CollectionContext
    → List (Text × List CollectedEntry)
normalize_model_scope kinds enums items ctx =
    normalize_hosted_models kinds enums.discovered ctx source_id_modelscope items
      (project_model_scope_model ctx)
