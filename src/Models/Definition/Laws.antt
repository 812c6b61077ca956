-- ===== src/Models/Definition/Laws.antt =====
-- definition_merge.go: the gaps of definitions and how they are filled.
use code_code_platform_catal.Prelude.{ℕ, ◌≡◌, refl, ap, List, Option, none, some, nat_eq, arith}
use code_code_platform_catal.Text.{Text}
use code_code_platform_catal.Models.Types.{ContextSpec, ModelVersion}
use code_code_platform_catal.Models.Definition.{
  fill_text, fill_enum, fill_list, fill_context, fill_context_tokens, fill_output_tokens,
  max_context_tokens_of, max_output_tokens_of, fill_definition, merge_definition_metadata,
}
use code_code_platform_catal.Models.Definition.Aliases.{merge_definition_aliases_assoc}

fill_text_assoc : (a b c : Text) → fill_text (fill_text a b) c ≡ fill_text a (fill_text b c)
unfolding fill_text
fill_text_assoc a b c = ground arith

fill_enum_assoc : (a b c : ℕ) → fill_enum (fill_enum a b) c ≡ fill_enum a (fill_enum b c)
unfolding fill_enum
fill_enum_assoc a b c = ground arith

fill_list_assoc : (a b c : List ℕ) → fill_list (fill_list a b) c ≡ fill_list a (fill_list b c)
unfolding fill_list
fill_list_assoc a b c = ground arith

fill_context_assoc :
    (a b c : Option ContextSpec)
    → fill_context (fill_context a b) c ≡ fill_context a (fill_context b c)
unfolding fill_context fill_context_tokens fill_output_tokens max_context_tokens_of
    max_output_tokens_of
fill_context_assoc a b c = ground arith

fill_definition_assoc :
    (a b c : ModelVersion)
    → fill_definition (fill_definition a b) c ≡ fill_definition a (fill_definition b c)
unfolding fill_definition
fill_definition_assoc a b c = simp (
  fill_text_assoc, fill_enum_assoc, fill_list_assoc, fill_context_assoc,
  merge_definition_aliases_assoc,
)

-- Filling the gaps of a definition from two others, in order of preference, does not depend on
-- which two of the three are merged first.
pub merge_definition_metadata_assoc :
    (a b c : Option ModelVersion)
    → merge_definition_metadata (merge_definition_metadata a b) c
      ≡ merge_definition_metadata a (merge_definition_metadata b c)
unfolding merge_definition_metadata
merge_definition_metadata_assoc none b c = refl
merge_definition_metadata_assoc (some a) none c = refl
merge_definition_metadata_assoc (some a) (some b) none = refl
merge_definition_metadata_assoc (some a) (some b) (some c) = ap some (fill_definition_assoc a b c)
