-- ===== src/Models/Collected/Laws.antt =====
-- source_model.go and definition_merge.go: merged entries and normalized sources.
use code_code_platform_catal.Prelude.{
  ◌≡◌, ◌≢◌, false, List, [], ◌∷◌, Option, none, some, Ordering, arith, inl, inr, Bool-cases,
  IsAscending, get, put, Option-cases, All, sort_by-All, ◌==◌,
}
use code_code_platform_catal.Text.{Text, text_eq, is_empty, compare_text}
use code_code_platform_catal.Models.Types.{CollectedSource, CollectedEntry}
use code_code_platform_catal.Models.Authority.{compare_collected_entry_authority}
use code_code_platform_catal.Models.Authority.Order.{compare_collected_entry_authority_swap}
use code_code_platform_catal.Models.Badges.Laws.{
  normalize_definition_source_badges-IsAscending, merge_definition_source_badges-IsAscending,
}
use code_code_platform_catal.Models.Pricing.Laws.{
  IsNormalPricing, normalize_pricing_summary-IsNormalPricing, merge_pricing_summary-IsNormalPricing,
}
use code_code_platform_catal.Models.Collected.{
  trimmed_source, is_incomplete, normalize_collected_source, fill_source, merge_normal_sources,
  merge_collected_source, merge_collected_entries, merge_source_into, merge_sources, source_values,
  normalize_collected_sources, compare_collected_source, collected_source_identity_key,
}

-- When one of two entries has the higher authority, the order in which they are collected does not
-- matter to the merged entry.
pub merge_collected_entries_comm :
    (left right : CollectedEntry)
    → compare_collected_entry_authority left right ≢ Ordering.eq
    → merge_collected_entries left right ≡ merge_collected_entries right left
unfolding merge_collected_entries
merge_collected_entries_comm left right h =
    ground (arith, h, compare_collected_entry_authority_swap left right)

-- The names are given, the badges are a sorted set, and the pricing is normal.
abbrev pub IsNormalSource : CollectedSource → Type 0
IsNormalSource s =
    (is_incomplete s ≡ false) × IsAscending compare_text s.badges × IsNormalPricing s.pricing

abbrev pub IsNormalOptional : Option CollectedSource → Type 0
IsNormalOptional none = Unit
IsNormalOptional (some s) = IsNormalSource s

normalize_collected_source-IsNormalOptional :
    (source : Option CollectedSource) → IsNormalOptional (normalize_collected_source source)
unfolding normalize_collected_source
normalize_collected_source-IsNormalOptional none = tt
normalize_collected_source-IsNormalOptional (some s) =
    elim (Bool-cases (is_incomplete (trimmed_source s))) [
      | inl e ↦ rw e tt
      | inr e ↦ rw e (
        e,
        (unfold trimmed_source in normalize_definition_source_badges-IsAscending s.badges),
        (unfold trimmed_source in normalize_pricing_summary-IsNormalPricing s.pricing),
      )
    ]

fill_source-IsNormalSource :
    (p f : CollectedSource) → is_incomplete p ≡ false → IsNormalSource (fill_source p f)
unfolding fill_source is_incomplete
fill_source-IsNormalSource p f c = (
  c,
  merge_definition_source_badges-IsAscending p.badges f.badges,
  merge_pricing_summary-IsNormalPricing p.pricing f.pricing,
)

merge_normal_sources-IsNormalOptional :
    (p f : Option CollectedSource)
    → IsNormalOptional p
    → IsNormalOptional f
    → IsNormalOptional (merge_normal_sources p f)
unfolding merge_normal_sources
merge_normal_sources-IsNormalOptional none f hp hf = hf
merge_normal_sources-IsNormalOptional (some p) none hp hf = hp
merge_normal_sources-IsNormalOptional (some p) (some f) (c, b, q) hf =
    fill_source-IsNormalSource p f c

merge_collected_source-IsNormalOptional :
    (p f : Option CollectedSource) → IsNormalOptional (merge_collected_source p f)
unfolding merge_collected_source
merge_collected_source-IsNormalOptional p f =
    merge_normal_sources-IsNormalOptional (normalize_collected_source p)
      (normalize_collected_source f) (normalize_collected_source-IsNormalOptional p)
      (normalize_collected_source-IsNormalOptional f)

abbrev IsNormalBinding : Text × Option CollectedSource → Type 0
IsNormalBinding (_, source) = IsNormalOptional source

put-All :
    (k : Text) (v : Option CollectedSource) (m : List (Text × Option CollectedSource))
    → IsNormalOptional v
    → All IsNormalBinding m
    → All IsNormalBinding (put k v m)
unfolding put
put-All k v [] h hs = (h, tt)
put-All k v ((j, w) ∷ m) h (hw, hs) = elim (Bool-cases (j == k)) [
  | inl e ↦ rw e (h, hs)
  | inr e ↦ rw e (hw, put-All k v m h hs)
]

merge_source_into-All :
    (m : List (Text × Option CollectedSource)) (source : Option CollectedSource)
    → All IsNormalBinding m
    → All IsNormalBinding (merge_source_into m source)
unfolding merge_source_into
merge_source_into-All m source h =
    let s = normalize_collected_source source in
    let k = collected_source_identity_key s in
    elim (Bool-cases (is_empty k)) [
      | inl e ↦ rw e h
      | inr e ↦ elim (Option-cases (get m k)) [
        | inl missing ↦
            rw (e, missing) (put-All k s m (normalize_collected_source-IsNormalOptional source) h)
        | inr (current, found) ↦
            rw (e, found)
              (put-All k (merge_collected_source current s) m
                (merge_collected_source-IsNormalOptional current s) h)
      ]
    ]

merge_sources-All :
    (m : List (Text × Option CollectedSource)) (sources : List (Option CollectedSource))
    → All IsNormalBinding m
    → All IsNormalBinding (merge_sources m sources)
unfolding merge_sources
merge_sources-All m [] h = h
merge_sources-All m (source ∷ sources) h =
    merge_sources-All (merge_source_into m source) sources (merge_source_into-All m source h)

source_values-All :
    (m : List (Text × Option CollectedSource))
    → All IsNormalBinding m
    → All IsNormalSource (source_values m)
unfolding source_values
source_values-All [] h = tt
source_values-All ((_, none) ∷ m) (_, h) = source_values-All m h
source_values-All ((_, some s) ∷ m) (p, h) = (p, source_values-All m h)

-- Every source that normalization keeps has a vendor, a model and a source id, a sorted set of
-- badges, and a pricing that is trimmed and has an amount or is absent.
pub normalize_collected_sources-IsNormalSource :
    (sources : List (Option CollectedSource))
    → All IsNormalSource (normalize_collected_sources sources)
unfolding normalize_collected_sources
normalize_collected_sources-IsNormalSource sources =
    sort_by-All compare_collected_source IsNormalSource _
      (source_values-All (merge_sources [] sources) (merge_sources-All [] sources tt))
