-- ===== src/Tests/Arrivals.antt =====
-- Three collectors of which the second finishes first and the last gives nothing.
use code_code_platform_catal.Prelude.{◌≡◌, ap, true, [], ◌∷◌, none, some, arith, done, receive}
use code_code_platform_catal.Text.{codes}
use code_code_platform_catal.Sync.Snapshot.{merge_collected_definitions_snapshot}
use code_code_platform_catal.Sync.Collect.{
  Collector, SourceResult, collect_definition_source_isolated, collect_authoritative_definitions,
}
use code_code_platform_catal.Sync.Collect.Laws.{collect_authoritative_definitions-Arrival}
use code_code_platform_catal.Tests.Runs.{scope, defaults, grouped}

abbrev first : Collector
first = record {
  source_id = codes "github-models";
  authority_priority = 600;
  collect = some (λ s. merge_collected_definitions_snapshot defaults (λ d. true) s grouped);
}

abbrev second : Collector
second = record {
  source_id = codes "cerebras";
  authority_priority = 500;
  collect = some (λ s. merge_collected_definitions_snapshot defaults (λ d. true) s grouped);
}

abbrev third : Collector
third = record { source_id = codes "nvidia"; authority_priority = 400; collect = none }

abbrev result : Collector → SourceResult
result c = collect_definition_source_isolated scope c

collect_authoritative_definitions-Arrival_example :
    collect_authoritative_definitions defaults
      (λ d. true)
      scope
      (result second ∷ result third ∷ result first ∷ [])
    ≡ collect_authoritative_definitions defaults
        (λ d. true)
        scope
        (result first ∷ result second ∷ result third ∷ [])
unfolding collect_definition_source_isolated
collect_authoritative_definitions-Arrival_example =
    collect_authoritative_definitions-Arrival defaults (λ d. true) scope
      (first ∷ second ∷ third ∷ []) (result second ∷ result third ∷ result first ∷ [])
      (
        (
          λ e. let h = ap (λ r. r.0) e in omega (arith, h),
          ((λ e. let h = ap (λ r. r.0) e in omega (arith, h)), tt),
        ),
        (((λ e. let h = ap (λ r. r.0) e in omega (arith, h)), tt), (tt, tt)),
      )
      (receive (result first ∷ []) (result second) (result third ∷ [])
        (receive (result first ∷ []) (result third) [] (receive [] (result first) [] done)))
