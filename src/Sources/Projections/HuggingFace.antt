-- ===== src/Sources/Projections/HuggingFace.antt =====
-- source/huggingface/huggingface.go, without the requests themselves.
use code_code_platform_catal.Prelude.{
  ℕ, Bool, true, false, not, ◌||◌, List, [], ◌∷◌, ◌++◌, ◌+◌, ◌-◌, Option, none, some, if◌then◌else◌,
  ◌==◌, nat_eq, ltb, map, take, drop, contains, collect_distinct, sort_by,
}
use code_code_platform_catal.Text.{
  Text, codes, text_eq, dash, is_empty, trim_space, to_lower, upper_byte, has_prefix, contains_text,
  index, cut, join, split, fields_func, compare_text,
}
use code_code_platform_catal.ModelIdentity.Candidates.{
  AliasKinds, candidate, has_channel_token, has_model_token,
}
use code_code_platform_catal.Models.Types.{CollectedEntry}
use code_code_platform_catal.Models.Authority.{source_id_hugging_face_hub}
use code_code_platform_catal.Sources.{CollectionContext, Enums}
use code_code_platform_catal.Sources.Hosted.{HostedProjection, normalize_hosted_models}

-- `huggingface.Model`.
pub record HuggingFaceModel : Type 0 where
  pub id : Text
  pub model_id : Text
  pub pipeline_tag : Text
  pub tags : List Text

abbrev pub quantized : List Text
quantized = codes "awq" ∷ codes "gguf" ∷ codes "gptq" ∷ codes "mlx" ∷ codes "onnx" ∷ []

unfoldable pub has_quantized_tag : List Text → Bool
has_quantized_tag [] = false
has_quantized_tag (tag ∷ tags) =
    let normalized = trim_space (to_lower tag) in
    contains quantized normalized
    || has_prefix (codes "base_model:quantized:") normalized
    || has_quantized_tag tags

unfoldable pub should_skip_hugging_face : HuggingFaceModel → Text → Bool
should_skip_hugging_face item raw =
    not (trim_space (to_lower item.pipeline_tag) == codes "text-generation")
    || has_channel_token raw
    || has_model_token raw quantized
    || has_quantized_tag item.tags

unfoldable pub project_hugging_face_model : HuggingFaceModel → Option HostedProjection
project_hugging_face_model item =
    let m = trim_space item.model_id in
    elim (cut b'/' (if is_empty m then trim_space item.id else m)) [
      | none ↦ none
      | some (owner, raw) ↦
          if should_skip_hugging_face item raw
          then none
          else some
              (record { owner = owner; raw_model_id = raw; display_name = raw; is_direct = true })
    ]

unfoldable pub normalize_hugging_face :
    AliasKinds
    → Enums
    → List HuggingFaceModel
    → CollectionContext
    → List (Text × List CollectedEntry)
normalize_hugging_face kinds enums items ctx =
    normalize_hosted_models kinds enums.discovered ctx source_id_hugging_face_hub items
      project_hugging_face_model

abbrev pub title_case : Text → Text
title_case [] = []
title_case (c ∷ part) = upper_byte c ∷ part

unfoldable pub title_case_vendor_id : Text → Text
title_case_vendor_id vendor_id =
    join dash (map title_case (fields_func (λ c. c == dash || c == b'_') (trim_space vendor_id)))

-- `aliasCandidates` is the field of the context, which is never nil.
unfoldable pub author_candidates : Text → (Text → List Text) → List Text
author_candidates vendor_id alias_candidates = sort_by compare_text (
    collect_distinct candidate
      (vendor_id ∷ alias_candidates vendor_id ++ title_case_vendor_id vendor_id ∷ []))

-- The URL between "<" and ">", if both are there in this order and something lies between.
unfoldable pub link_between : Text → Option ℕ → Option ℕ → Option Text
link_between part none end = none
link_between part (some start) none = none
link_between part (some start) (some end) =
    if ltb (start + 1) end
    then some (trim_space (take (end - (start + 1)) (drop (start + 1) part)))
    else none

unfoldable pub next_link : List Text → Text
next_link [] = []
next_link (p ∷ parts) =
    let part = trim_space p in
    let rest = next_link parts in
    if contains_text (codes "rel=\"next\"") part
    then elim (link_between part (index b'<' part) (index b'>' part)) [
      | none ↦ rest
      | some url ↦ url
    ]
    else rest

unfoldable pub next_link_url : Text → Text
next_link_url header = next_link (split (codes ",") (trim_space header))
