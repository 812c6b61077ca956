-- ===== src/Models/Collected.antt =====
-- source_model.go, the first function of definition_merge.go and model_registry_entry.go: the
-- sources of a model, their merge, and the entry of the registry.
pub mod Laws
use code_code_platform_catal.Prelude.{
  ℕ, Bool, true, false, ◌||◌, List, [], ◌∷◌, ◌++◌, Option, none, some, Ordering, if◌then◌else◌,
  ◌==◌, nat_eq, get, put, sort_by,
}
use code_code_platform_catal.Text.{Text, text_eq, codes, is_empty, trim_space, compare_text}
use code_code_platform_catal.ModelIdentity.Slug.{normalized_vendor_slug}
use code_code_platform_catal.Models.Types.{
  ModelVersion, PricingSummary, CollectedSource, CollectedEntry, int32_gtb, int32_sub,
}
use code_code_platform_catal.Models.Authority.{compare_collected_entry_authority, is_lt}
use code_code_platform_catal.Models.Badges.{
  normalize_definition_source_badges, merge_definition_source_badges,
}
use code_code_platform_catal.Models.Pricing.{normalize_pricing_summary, merge_pricing_summary}
use code_code_platform_catal.Models.Definition.{merge_definition_metadata}

-- The assignments to `out`.
unfoldable pub trimmed_source : CollectedSource → CollectedSource
trimmed_source s = record {
  vendor_id = normalized_vendor_slug s.vendor_id;
  model_id = trim_space s.model_id;
  source_id = normalized_vendor_slug s.source_id;
  source_model_id = trim_space s.source_model_id;
  display_name = trim_space s.display_name;
  kind = s.kind;
  is_direct = s.is_direct;
  authority_priority = s.authority_priority;
  definition = s.definition;
  badges = normalize_definition_source_badges s.badges;
  pricing = normalize_pricing_summary s.pricing;
}

unfoldable pub is_incomplete : CollectedSource → Bool
is_incomplete s = is_empty s.vendor_id || is_empty s.model_id || is_empty s.source_id

unfoldable pub normalize_collected_source : Option CollectedSource → Option CollectedSource
normalize_collected_source none = none
normalize_collected_source (some s) =
    let out = trimmed_source s in if is_incomplete out then none else some out

unfoldable pub bool_key : Bool → Text
bool_key value = if value then codes "1" else codes "0"

-- "\x00" is the byte 0.
unfoldable pub source_key : CollectedSource → Text
source_key s =
    s.vendor_id
    ++ 0 ∷ s.model_id
    ++ 0 ∷ s.source_id
    ++ 0 ∷ s.source_model_id
    ++ 0 ∷ bool_key s.is_direct

unfoldable pub collected_source_identity_key : Option CollectedSource → Text
collected_source_identity_key source = elim (normalize_collected_source source) [
  | none ↦ []
  | some s ↦ source_key s
]

-- The steps of `mergeCollectedSource` on two sources that are not nil.
unfoldable pub fill_source : CollectedSource → CollectedSource → CollectedSource
fill_source p f = record {
  vendor_id = p.vendor_id;
  model_id = p.model_id;
  source_id = p.source_id;
  source_model_id = if is_empty p.source_model_id then f.source_model_id else p.source_model_id;
  display_name = p.display_name;
  kind = p.kind;
  is_direct = p.is_direct;
  authority_priority =
      if int32_gtb f.authority_priority p.authority_priority
      then f.authority_priority
      else p.authority_priority;
  definition = merge_definition_metadata p.definition f.definition;
  badges = merge_definition_source_badges p.badges f.badges;
  pricing = merge_pricing_summary p.pricing f.pricing;
}

unfoldable pub merge_normal_sources :
    Option CollectedSource → Option CollectedSource → Option CollectedSource
merge_normal_sources none fallback = fallback
merge_normal_sources (some p) none = some p
merge_normal_sources (some p) (some f) = some (fill_source p f)

unfoldable pub merge_collected_source :
    Option CollectedSource → Option CollectedSource → Option CollectedSource
merge_collected_source primary fallback =
    merge_normal_sources (normalize_collected_source primary) (normalize_collected_source fallback)

-- The sign of an int32.
abbrev pub sign : ℕ → Ordering
sign n = if n == 0 then Ordering.eq else if int32_gtb n 0 then Ordering.gt else Ordering.lt

-- The first comparison that tells the values apart.
abbrev pub or_else : Ordering → Ordering → Ordering
or_else Ordering.lt o = Ordering.lt
or_else Ordering.eq o = o
or_else Ordering.gt o = Ordering.gt

abbrev pub compare_direct : Bool → Bool → Ordering
compare_direct true true = Ordering.eq
compare_direct true false = Ordering.lt
compare_direct false true = Ordering.gt
compare_direct false false = Ordering.eq

unfoldable pub compare_collected_source : CollectedSource → CollectedSource → Ordering
compare_collected_source left right = or_else (compare_direct left.is_direct right.is_direct) (
    or_else (sign (int32_sub right.authority_priority left.authority_priority)) (
      or_else (compare_text left.source_id right.source_id) (
        or_else (compare_text left.vendor_id right.vendor_id) (
          or_else (compare_text left.model_id right.model_id)
            (compare_text left.source_model_id right.source_model_id)))))

-- The loop of `NormalizeCollectedSources`; `merged` holds the sources by their keys.
unfoldable pub merge_source_into :
    List (Text × Option CollectedSource)
    → Option CollectedSource
    → List (Text × Option CollectedSource)
merge_source_into merged source =
    let s = normalize_collected_source source in
    let k = collected_source_identity_key s in
    if is_empty k then merged else elim (get merged k) [
      | none ↦ put k s merged
      | some current ↦ put k (merge_collected_source current s) merged
    ]

unfoldable pub merge_sources :
    List (Text × Option CollectedSource)
    → List (Option CollectedSource)
    → List (Text × Option CollectedSource)
merge_sources merged [] = merged
merge_sources merged (source ∷ sources) = merge_sources (merge_source_into merged source) sources

-- The values of the map. `compareCollectedSource` and every caller read a nil source as one with
-- zero fields, and a nil value never stands under a key that is not empty.
unfoldable pub source_values : List (Text × Option CollectedSource) → List CollectedSource
source_values [] = []
source_values ((_, none) ∷ m) = source_values m
source_values ((_, some s) ∷ m) = s ∷ source_values m

abbrev pub some_sources : List CollectedSource → List (Option CollectedSource)
some_sources [] = []
some_sources (s ∷ sources) = some s ∷ some_sources sources

unfoldable pub normalize_collected_sources : List (Option CollectedSource) → List CollectedSource
normalize_collected_sources sources =
    sort_by compare_collected_source (source_values (merge_sources [] sources))

unfoldable pub merge_collected_source_slices :
    List (Option CollectedSource) → List (Option CollectedSource) → List (Option CollectedSource)
merge_collected_source_slices left right =
    some_sources (normalize_collected_sources (left ++ right))

-- The result of `MergeCollectedEntries` once the entry of higher authority is first.
unfoldable pub merge_by_authority : CollectedEntry → CollectedEntry → CollectedEntry
merge_by_authority p f = record {
  definition = merge_definition_metadata p.definition f.definition;
  badges = merge_definition_source_badges p.badges f.badges;
  pricing = merge_pricing_summary p.pricing f.pricing;
  sources = merge_collected_source_slices p.sources f.sources;
}

unfoldable pub merge_collected_entries : CollectedEntry → CollectedEntry → CollectedEntry
merge_collected_entries primary fallback =
    if is_lt (compare_collected_entry_authority fallback primary)
    then merge_by_authority fallback primary
    else merge_by_authority primary fallback
