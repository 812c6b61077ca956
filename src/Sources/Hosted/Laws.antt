-- ===== src/Sources/Hosted/Laws.antt =====
-- source/hosted.go: the groups of the listed models.
use code_code_platform_catal.Prelude.{
  ℕ, ◌≡◌, refl, List, [], ◌∷◌, Option, none, some, get, put-All, get-All, All, All-append,
  sort_by-All, inl, inr, Option-cases,
}
use code_code_platform_catal.Text.{Text, text_eq}
use code_code_platform_catal.ModelIdentity.Candidates.{
  ModelAlias, AliasKinds, normalize_external_model_identity,
}
use code_code_platform_catal.Models.Types.{ModelVersion, CollectedSource, CollectedEntry}
use code_code_platform_catal.Sources.{CollectionContext}
use code_code_platform_catal.Sources.Hosted.{
  HostedProjection, RichModelProjection, Groups, append_sources, add_model, models_of, add_entry,
  compare_entry, entries_of, sort_by_vendor, hosted_entry, hosted_step, rich_definition,
  rich_source, rich_entry, rich_step, hosted_groups, normalize_hosted_models, rich_groups,
  normalize_rich_models,
}

abbrev pub IsOf : Text → Option ModelVersion → Type 0
IsOf vendor_id none = ⊥
IsOf vendor_id (some d) = d.vendor_id ≡ vendor_id

abbrev pub IsSourceOf : Text → Option CollectedSource → Type 0
IsSourceOf vendor_id none = ⊥
IsSourceOf vendor_id (some s) = s.vendor_id ≡ vendor_id

-- The entry's definition and all its sources have the vendor.
abbrev pub BelongsTo : Text → CollectedEntry → Type 0
BelongsTo vendor_id e = IsOf vendor_id e.definition × All (IsSourceOf vendor_id) e.sources

abbrev IsGroup : Text × List (Text × CollectedEntry) → Type 0
IsGroup (vendor_id, models) =
    All (λ (binding : Text × CollectedEntry). BelongsTo vendor_id binding.1) models

abbrev pub IsVendorGroup : Text × List CollectedEntry → Type 0
IsVendorGroup (vendor_id, entries) = All (BelongsTo vendor_id) entries

append_sources-BelongsTo :
    (vendor_id : Text) (current entry : CollectedEntry)
    → BelongsTo vendor_id current
    → BelongsTo vendor_id entry
    → BelongsTo vendor_id (append_sources current entry)
unfolding append_sources
append_sources-BelongsTo vendor_id current entry (d, h) (_, k) =
    (d, All-append (IsSourceOf vendor_id) current.sources entry.sources h k)

add_model-IsGroup :
    (vendor_id model_id : Text) (entry : CollectedEntry) (models : List (Text × CollectedEntry))
    → BelongsTo vendor_id entry
    → IsGroup (vendor_id, models)
    → IsGroup (vendor_id, add_model model_id entry models)
unfolding add_model
add_model-IsGroup vendor_id model_id entry models b h = elim (Option-cases (get models model_id)) [
  | inl missing ↦ rw (missing, add_model) (put-All _ model_id entry models b h)
  | inr (current, found) ↦
      rw (found, add_model)
        (put-All _ model_id (append_sources current entry) models
          (append_sources-BelongsTo vendor_id current entry
            (get-All _ model_id current models h found) b)
          h)
]

add_entry-IsGroup :
    (vendor_id model_id : Text) (entry : CollectedEntry) (groups : Groups)
    → BelongsTo vendor_id entry
    → All IsGroup groups
    → All IsGroup (add_entry vendor_id model_id entry groups)
unfolding add_entry
add_entry-IsGroup vendor_id model_id entry groups b h =
    put-All IsGroup vendor_id _ groups
      (add_model-IsGroup vendor_id model_id entry (models_of (get groups vendor_id)) b known) h
  where
    known : IsGroup (vendor_id, models_of (get groups vendor_id))
    known = elim (Option-cases (get groups vendor_id)) [
      | inl missing ↦ rw missing tt
      | inr (models, found) ↦ rw found (get-All IsGroup vendor_id models groups h found)
    ]

entries_of-All :
    (vendor_id : Text) (models : List (Text × CollectedEntry))
    → IsGroup (vendor_id, models)
    → All (BelongsTo vendor_id) (entries_of models)
unfolding entries_of
entries_of-All vendor_id [] h = tt
entries_of-All vendor_id ((_, entry) ∷ models) (b, h) = (b, entries_of-All vendor_id models h)

sort_by_vendor-IsVendorGroup :
    (groups : Groups) → All IsGroup groups → All IsVendorGroup (sort_by_vendor groups)
unfolding sort_by_vendor
sort_by_vendor-IsVendorGroup [] h = tt
sort_by_vendor-IsVendorGroup ((vendor_id, models) ∷ groups) (g, h) = (
  sort_by-All compare_entry (BelongsTo vendor_id) _ (entries_of-All vendor_id models g),
  sort_by_vendor-IsVendorGroup groups h,
)

module _ (kinds : AliasKinds) (discovered : ℕ) (ctx : CollectionContext) where
  hosted_step-IsGroup :
      (source_id : Text) (groups : Groups) (o : Option HostedProjection)
      → All IsGroup groups
      → All IsGroup (hosted_step kinds discovered ctx source_id groups o)
  unfolding hosted_step
  hosted_step-IsGroup source_id groups none h = h
  hosted_step-IsGroup source_id groups (some p) h =
      elim (Option-cases (ctx.resolve_vendor p.owner)) [
        | inl unknown ↦ rw (unknown, hosted_step) h
        | inr (vendor_id, e) ↦
            elim (Option-cases (normalize_external_model_identity kinds p.raw_model_id)) [
              | inl refused ↦ rw (e, refused, hosted_step) h
              | inr ((model_id, aliases), f) ↦
                  rw (e, f, hosted_step)
                    (add_entry-IsGroup vendor_id model_id _ groups
                      (unfold hosted_entry in (refl, (refl, tt))) h)
            ]
      ]

  rich_entry-BelongsTo :
      (vendor_id model_id : Text) (aliases : List ModelAlias) (p : RichModelProjection)
      → BelongsTo vendor_id (rich_entry kinds discovered ctx vendor_id model_id aliases p)
  unfolding rich_entry rich_definition rich_source
  rich_entry-BelongsTo vendor_id model_id aliases p = with_parts p.definition refl p.source refl
    where
      with_parts :
          (d : Option ModelVersion)
          → p.definition ≡ d
          → (s : Option CollectedSource) → p.source ≡ s
          → BelongsTo vendor_id (rich_entry kinds discovered ctx vendor_id model_id aliases p)
      with_parts none e none f = unfold rich_entry in rw (e, f) (refl, tt)
      with_parts none e (some s) f = unfold rich_entry in rw (e, f) (refl, (refl, tt))
      with_parts (some d) e none f = unfold rich_entry in rw (e, f) (refl, tt)
      with_parts (some d) e (some s) f = unfold rich_entry in rw (e, f) (refl, (refl, tt))

  rich_step-IsGroup :
      (groups : Groups) (o : Option RichModelProjection)
      → All IsGroup groups
      → All IsGroup (rich_step kinds discovered ctx groups o)
  unfolding rich_step
  rich_step-IsGroup groups none h = h
  rich_step-IsGroup groups (some p) h = elim (Option-cases (ctx.resolve_vendor p.owner)) [
    | inl unknown ↦ rw (unknown, rich_step) h
    | inr (vendor_id, e) ↦
        elim (Option-cases (normalize_external_model_identity kinds p.raw_model_id)) [
          | inl refused ↦ rw (e, refused, rich_step) h
          | inr ((model_id, aliases), f) ↦
              rw (e, f, rich_step)
                (add_entry-IsGroup vendor_id model_id _ groups
                  (rich_entry-BelongsTo vendor_id model_id aliases p) h)
        ]
  ]

  module _ {T : Type 0} where
    hosted_groups-IsGroup :
        (source_id : Text) (project : T → Option HostedProjection) (groups : Groups)
        (items : List T)
        → All IsGroup groups
        → All IsGroup (hosted_groups kinds discovered ctx source_id project groups items)
    unfolding hosted_groups
    hosted_groups-IsGroup source_id project groups [] h = h
    hosted_groups-IsGroup source_id project groups (item ∷ items) h =
        hosted_groups-IsGroup source_id project
          (hosted_step kinds discovered ctx source_id groups (project item)) items
          (hosted_step-IsGroup source_id groups (project item) h)

    -- Whatever a hosted source lists, each group has only definitions and sources of its vendor.
    pub normalize_hosted_models-IsVendorGroup :
        (source_id : Text) (items : List T) (project : T → Option HostedProjection)
        → All IsVendorGroup (normalize_hosted_models kinds discovered ctx source_id items project)
    unfolding normalize_hosted_models
    normalize_hosted_models-IsVendorGroup source_id items project =
        sort_by_vendor-IsVendorGroup (hosted_groups kinds discovered ctx source_id project [] items)
          (hosted_groups-IsGroup source_id project [] items tt)

    rich_groups-IsGroup :
        (project : T → Option RichModelProjection) (groups : Groups) (items : List T)
        → All IsGroup groups
        → All IsGroup (rich_groups kinds discovered ctx project groups items)
    unfolding rich_groups
    rich_groups-IsGroup project groups [] h = h
    rich_groups-IsGroup project groups (item ∷ items) h =
        rich_groups-IsGroup project (rich_step kinds discovered ctx groups (project item)) items
          (rich_step-IsGroup groups (project item) h)

    -- Whatever a source with full definitions lists, each group has only definitions and sources of
    -- its vendor.
    pub normalize_rich_models-IsVendorGroup :
        (items : List T) (project : T → Option RichModelProjection)
        → All IsVendorGroup (normalize_rich_models kinds discovered ctx items project)
    unfolding normalize_rich_models
    normalize_rich_models-IsVendorGroup items project =
        sort_by_vendor-IsVendorGroup (rich_groups kinds discovered ctx project [] items)
          (rich_groups-IsGroup project [] items tt)
