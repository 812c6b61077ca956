-- ===== src/Sync/Collect.antt =====
-- sync/collect.go: the collectors run on their own, their results arrive in any order, and are merged
-- by authority. Durations, counts and logs go to the metrics only and are left out; what a collector
-- does to its local snapshot is a function.
pub mod Laws
use Prim.Native.Nat.{Ordering, compare}
use code_code_platform_catal.Prelude.{
  ℕ, Bool, true, false, List, [], ◌∷◌, ◌++◌, Option, none, some, map, if◌then◌else◌, get, put,
  sort_by,
}
use code_code_platform_catal.Text.{Text, text_eq, is_empty, trim_space, compare_text}
use code_code_platform_catal.Models.Types.{ModelVersion, CollectedEntry}
use code_code_platform_catal.Models.Definition.{Defaults}
use code_code_platform_catal.Sync.Vendor.{VendorScope}
use code_code_platform_catal.Sync.Snapshot.{
  CollectedSnapshot, new_collected_definitions_snapshot, merge_collected_definitions_snapshot,
}

-- `sourceResult`; `failed` stands for an error.
pub record SourceResult : Type 0 where
  pub source_id : Text
  pub authority_priority : ℕ
  pub grouped : Option (List (Text × List CollectedEntry))
  pub failed : Bool

-- `definitionSourceCollectorSpec`; a nil function is `none`.
pub record Collector : Type 0 where
  pub source_id : Text
  pub authority_priority : ℕ
  pub collect : Option (CollectedSnapshot → CollectedSnapshot)

abbrev pub entries_of : Option (List CollectedEntry) → List CollectedEntry
entries_of none = []
entries_of (some entries) = entries

-- The body of the loop of `extractGroupedDefinitions`.
unfoldable pub group_definition :
    List (Text × List CollectedEntry) → CollectedEntry → List (Text × List CollectedEntry)
group_definition by_vendor entry = elim entry.definition [
  | none ↦ by_vendor
  | some definition ↦
      let vendor_id = trim_space definition.vendor_id in
      if is_empty vendor_id
      then by_vendor
      else put vendor_id (entries_of (get by_vendor vendor_id) ++ entry ∷ []) by_vendor
]

unfoldable pub group_definitions :
    List (Text × List CollectedEntry)
    → List (Text × CollectedEntry)
    → List (Text × List CollectedEntry)
group_definitions by_vendor [] = by_vendor
group_definitions by_vendor ((k, entry) ∷ definitions) =
    group_definitions (group_definition by_vendor entry) definitions

abbrev pub grouped_unless_empty :
    List (Text × CollectedEntry) → Option (List (Text × List CollectedEntry))
grouped_unless_empty [] = none
grouped_unless_empty (d ∷ ds) = some (group_definitions [] (d ∷ ds))

unfoldable pub extract_grouped_definitions :
    CollectedSnapshot → Option (List (Text × List CollectedEntry))
extract_grouped_definitions snapshot = grouped_unless_empty snapshot.definitions

unfoldable pub collect_definition_source_isolated : VendorScope → Collector → SourceResult
collect_definition_source_isolated scope collector = record {
  source_id = collector.source_id;
  authority_priority = collector.authority_priority;
  grouped = elim collector.collect [
    | none ↦ none
    | some collect ↦
        extract_grouped_definitions (collect (new_collected_definitions_snapshot scope))
  ];
  failed = false;
}

-- What the results are sorted by: the higher authority first, then the source's id.
abbrev pub rank : SourceResult → ℕ × Text
rank result = (result.authority_priority, result.source_id)

unfoldable pub compare_rank : ℕ × Text → ℕ × Text → Ordering
compare_rank (p, s) (q, t) = elim (compare q p) [
  | Ordering.lt ↦ Ordering.lt
  | Ordering.eq ↦ compare_text s t
  | Ordering.gt ↦ Ordering.gt
]

abbrev pub compare_result : SourceResult → SourceResult → Ordering
compare_result left right = compare_rank (rank left) (rank right)

module _ (defaults : Defaults) (valid : ModelVersion → Bool) where
  -- The body of the loop that merges the results.
  unfoldable pub merge_result : CollectedSnapshot → SourceResult → CollectedSnapshot
  merge_result snapshot result = if result.failed then snapshot else elim result.grouped [
    | none ↦ snapshot
    | some grouped ↦ merge_collected_definitions_snapshot defaults valid snapshot grouped
  ]

  unfoldable pub merge_results : CollectedSnapshot → List SourceResult → CollectedSnapshot
  merge_results snapshot [] = snapshot
  merge_results snapshot (result ∷ results) = merge_results (merge_result snapshot result) results

  abbrev pub unless_unmanaged :
      List Text → CollectedSnapshot → CollectedSnapshot → CollectedSnapshot
  unless_unmanaged [] new merged = new
  unless_unmanaged (id ∷ managed) new merged = merged

  -- `collectAuthoritativeDefinitions` from the results in the order in which they arrived.
  unfoldable pub collect_authoritative_definitions :
      VendorScope → List SourceResult → CollectedSnapshot
  collect_authoritative_definitions scope collected =
      let snapshot = new_collected_definitions_snapshot scope in
      unless_unmanaged scope.managed_ids snapshot
        (merge_results snapshot (sort_by compare_result collected))
