-- ===== src/Sources/OpenRouter/Laws.antt =====
-- source/openrouter/normalize.go: the merge of two routes of a model.
use code_code_platform_catal.Prelude.{◌≡◌, ◌≢◌, not, arith, nat_eq}
use code_code_platform_catal.Text.{text_eq, compare_text_swap, compare_text-eq}
use code_code_platform_catal.Sources.OpenRouter.Normalize.{
  DefinitionCandidate, is_preferred, merge_definitions,
}

-- Of two routes with different ids, exactly one is preferred.
is_preferred_swap :
    (a b : DefinitionCandidate)
    → a.source_id ≢ b.source_id
    → is_preferred a b ≡ not (is_preferred b a)
unfolding is_preferred
is_preferred_swap a b h =
    ground
      (arith, h, compare_text_swap a.source_id b.source_id, compare_text-eq a.source_id b.source_id)

-- The merge of two routes with different ids does not depend on which of them is met first.
pub merge_definitions_comm :
    (a b : DefinitionCandidate)
    → a.source_id ≢ b.source_id
    → merge_definitions a b ≡ merge_definitions b a
unfolding merge_definitions
merge_definitions_comm a b h = ground (arith, is_preferred_swap a b h)
