-- ===== src/Models/Badges/Laws.antt =====
-- source_model_badges.go: the normalized badges of a source.
use code_code_platform_catal.Prelude.{
  List, ◌++◌, collect_distinct-IsDistinct, sort_by-IsAscending, IsAscending,
}
use code_code_platform_catal.Text.{Text, text_eq, compare_text, compare_text-IsComparator}
use code_code_platform_catal.Models.Badges.{
  normalize_definition_source_badge, normalize_definition_source_badges,
  merge_definition_source_badges,
}

pub normalize_definition_source_badges-IsAscending :
    (badges : List Text) → IsAscending compare_text (normalize_definition_source_badges badges)
unfolding normalize_definition_source_badges
normalize_definition_source_badges-IsAscending badges =
    sort_by-IsAscending compare_text compare_text-IsComparator _
      (collect_distinct-IsDistinct normalize_definition_source_badge badges)

pub merge_definition_source_badges-IsAscending :
    (left right : List Text) → IsAscending compare_text (merge_definition_source_badges left right)
unfolding merge_definition_source_badges
merge_definition_source_badges-IsAscending left right =
    normalize_definition_source_badges-IsAscending (left ++ right)
