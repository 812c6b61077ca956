-- ===== src/Sources/OpenRouter/Identity.antt =====
-- source/openrouter/identity.go.
use code_code_platform_catal.Prelude.{
  true, false, not, ◌||◌, List, [], ◌∷◌, ◌++◌, Option, none, some, if◌then◌else◌, ◌==◌, contains,
  map,
}
use code_code_platform_catal.Text.{Text, text_eq, is_empty, trim_space, cut}
use code_code_platform_catal.ModelIdentity.Slug.{normalized_vendor_slug}
use code_code_platform_catal.ModelIdentity.Suffix.{has_snapshot_release_suffix}
use code_code_platform_catal.ModelIdentity.Candidates.{
  ModelAlias, AliasKinds, has_channel_token, normalize_external_model_identity,
}
use code_code_platform_catal.Models.Authority.{source_id_openrouter}
use code_code_platform_catal.Sources.{CollectionContext}

-- `openrouter.Identity`.
pub record RouteIdentity : Type 0 where
  pub model_id : Text
  pub aliases : List ModelAlias

unfoldable pub parse_vendor_model_id : Text → Option (Text × Text)
parse_vendor_model_id value = elim (cut b'/' (trim_space value)) [
  | none ↦ none
  | some (p, m) ↦
      let prefix = trim_space p in
      let model_id = trim_space m in
      if is_empty prefix || is_empty model_id then none else some (prefix, model_id)
]

unfoldable pub split_route_variant : Text → Text × Text
split_route_variant model_id = elim (cut b':' (trim_space model_id)) [
  | none ↦ (trim_space model_id, [])
  | some (base, variant) ↦ (trim_space base, trim_space variant)
]

unfoldable pub strip_route_variant : Text → Text
strip_route_variant model_id = (split_route_variant model_id).0

unfoldable pub resolve_vendor_id : Text → CollectionContext → Option Text
resolve_vendor_id prefix ctx = elim (ctx.resolve_vendor prefix) [
  | some vendor_id ↦ some vendor_id
  | none ↦
      let normalized = normalized_vendor_slug prefix in
      if not (normalized == source_id_openrouter)
      then none
      else elim (ctx.resolve_vendor normalized) [
        | none ↦ none
        | some vendor_id ↦ if vendor_id == source_id_openrouter then some vendor_id else none
      ]
]

unfoldable pub build_aliases : AliasKinds → Text → Text → List ModelAlias
build_aliases kinds model_id canonical =
    if is_empty (trim_space canonical) || trim_space canonical == trim_space model_id
    then []
    else record {
      kind = if has_snapshot_release_suffix canonical then kinds.snapshot else kinds.stable;
      value = canonical;
    }
      ∷ []

abbrev pub trimmed_value : ModelAlias → Text
trimmed_value alias = trim_space alias.value

-- The loop over `right`; `seen` holds the trimmed values.
unfoldable pub append_new_aliases : List Text → List ModelAlias → List ModelAlias → List ModelAlias
append_new_aliases seen out [] = out
append_new_aliases seen out (alias ∷ aliases) =
    let value = trim_space alias.value in
    elim (is_empty value || contains seen value) [
      | true ↦ append_new_aliases seen out aliases
      | false ↦ append_new_aliases (value ∷ seen) (out ++ alias ∷ []) aliases
    ]

unfoldable pub merge_aliases : List ModelAlias → List ModelAlias → List ModelAlias
merge_aliases left right = append_new_aliases (map trimmed_value left) left right

-- The model's name in the canonical id, if that id has the same vendor.
unfoldable pub canonical_model_id : CollectionContext → Text → Text → Text
canonical_model_id ctx vendor_id canonical_source_id =
    elim (parse_vendor_model_id canonical_source_id) [
      | none ↦ []
      | some (prefix, model) ↦ elim (resolve_vendor_id prefix ctx) [
        | none ↦ []
        | some canonical_vendor ↦
            if canonical_vendor == vendor_id then strip_route_variant model else []
      ]
    ]

unfoldable pub route_identity :
    AliasKinds → CollectionContext → Text → Text → Text → Option (Text × RouteIdentity)
route_identity kinds ctx vendor_id source_model_id canonical_source_id =
    if is_empty source_model_id || has_channel_token source_model_id
    then none
    else elim (normalize_external_model_identity kinds source_model_id) [
      | none ↦ none
      | some (model_id, aliases) ↦ some (
        vendor_id,
        record {
          model_id = model_id;
          aliases =
              merge_aliases aliases (
                build_aliases kinds model_id
                  (canonical_model_id ctx vendor_id canonical_source_id));
        },
      )
    ]

unfoldable pub resolve_identity :
    AliasKinds → Text → Text → CollectionContext → Option (Text × RouteIdentity)
resolve_identity kinds source_id canonical_source_id ctx = elim (parse_vendor_model_id source_id) [
  | none ↦ none
  | some (prefix, model) ↦ elim (resolve_vendor_id prefix ctx) [
    | none ↦ none
    | some vendor_id ↦
        route_identity kinds ctx vendor_id (split_route_variant model).0 canonical_source_id
  ]
]
