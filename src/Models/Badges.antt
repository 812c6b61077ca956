-- ===== src/Models/Badges.antt =====
-- source_model_badges.go, lines 11 to 65: the badges of a definition's source.
pub mod Laws
use code_code_platform_catal.Prelude.{
  List, [], ◌∷◌, ◌++◌, Option, none, some, if◌then◌else◌, contains, collect_distinct, sort_by,
}
use code_code_platform_catal.Text.{Text, codes, text_eq, trim_space, to_lower, compare_text}

-- The constants `SourceBadge...`.
unfoldable pub source_badges : List Text
source_badges =
    codes "exacto"
    ∷ codes "extended"
    ∷ codes "floor"
    ∷ codes "free"
    ∷ codes "nitro"
    ∷ codes "online"
    ∷ codes "thinking"
    ∷ []

-- The result "" for an unknown badge is `none`.
unfoldable pub normalize_definition_source_badge : Text → Option Text
normalize_definition_source_badge badge =
    let b = trim_space (to_lower badge) in if contains source_badges b then some b else none

unfoldable pub normalize_definition_source_badges : List Text → List Text
normalize_definition_source_badges badges =
    sort_by compare_text (collect_distinct normalize_definition_source_badge badges)

unfoldable pub merge_definition_source_badges : List Text → List Text → List Text
merge_definition_source_badges left right = normalize_definition_source_badges (left ++ right)
