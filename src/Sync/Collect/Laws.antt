-- ===== src/Sync/Collect/Laws.antt =====
-- sync/collect.go: the order in which the results of the collectors arrive.
use Prim.Native.Nat.{Ordering}
use code_code_platform_catal.Prelude.{
  ℕ, ◌≡◌, ap, Bool, List, map, arith, flip, IsComparator, Arrival, DistinctKeys, sort_by-Arrival,
}
use code_code_platform_catal.Text.{Text, compare_text_swap, compare_text-eq, compare_text_trans}
use code_code_platform_catal.Models.Types.{ModelVersion}
use code_code_platform_catal.Models.Definition.{Defaults}
use code_code_platform_catal.Sync.Vendor.{VendorScope}
use code_code_platform_catal.Sync.Snapshot.{new_collected_definitions_snapshot}
use code_code_platform_catal.Sync.Collect.{
  SourceResult, Collector, collect_definition_source_isolated, rank, compare_rank, merge_results,
  unless_unmanaged, collect_authoritative_definitions,
}

pub compare_rank-IsComparator : IsComparator compare_rank
compare_rank-IsComparator = record { swap = swap; same = same; trans = trans }
  where
    swap : (a b : ℕ × Text) → compare_rank b a ≡ flip (compare_rank a b)
    swap (p, s) (q, t) = unfold compare_rank in ground (arith, compare_text_swap s t)

    same : (a b : ℕ × Text) → compare_rank a b ≡ Ordering.eq → a ≡ b
    same (p, s) (q, t) h = unfold compare_rank in ground (arith, compare_text-eq s t)

    trans :
        (a b c : ℕ × Text)
        → compare_rank a b ≡ Ordering.lt
        → compare_rank b c ≡ Ordering.lt
        → compare_rank a c ≡ Ordering.lt
    trans (p, s) (q, t) (r, u) h k = unfold compare_rank in ground (arith, compare_text_trans s t u)

module _ (defaults : Defaults) (valid : ModelVersion → Bool) where
  -- In whatever order the collectors' results arrive, the merged snapshot is the same, if no two
  -- collectors have the same authority and source id.
  pub collect_authoritative_definitions-Arrival :
      (scope : VendorScope) (collectors : List Collector) (collected : List SourceResult)
      → DistinctKeys rank compare_rank compare_rank-IsComparator
          (map (collect_definition_source_isolated scope) collectors)
      → Arrival (map (collect_definition_source_isolated scope) collectors) collected
      → collect_authoritative_definitions defaults valid scope collected
        ≡ collect_authoritative_definitions defaults valid scope
            (map (collect_definition_source_isolated scope) collectors)
  unfolding collect_authoritative_definitions
  collect_authoritative_definitions-Arrival scope collectors collected distinct arrival =
      ap
        (λ results.
          unless_unmanaged defaults valid scope.managed_ids
            (new_collected_definitions_snapshot scope)
            (merge_results defaults valid (new_collected_definitions_snapshot scope) results))
        (sort_by-Arrival rank compare_rank compare_rank-IsComparator arrival distinct)
