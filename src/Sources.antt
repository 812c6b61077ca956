-- ===== src/Sources.antt =====
-- packages/platform-k8s/internal/modelservice/models/source: how the models that a source lists
-- become collected entries, grouped by vendor.
pub mod Hosted
pub mod Projections
pub mod OpenRouter
use code_code_platform_catal.Prelude.{
  ℕ, Bool, List, [], ◌∷◌, Option, none, some, Ordering, compare, if◌then◌else◌, ◌==◌, nat_eq, ◌≡◌,
  flip, arith, collect_distinct, sort_by, IsComparator,
}
use code_code_platform_catal.Text.{Text, codes, text_eq, trim_space}

-- `source.CollectionContext`; an unknown vendor is `none`.
pub record CollectionContext : Type 0 where
  pub resolve_vendor : Text → Option Text
  pub alias_candidates : Text → List Text

-- The numbers of the contract's enum values that the sources name.
pub record Enums : Type 0 where
  pub text : ℕ
  pub image : ℕ
  pub audio : ℕ
  pub video : ℕ
  pub tool_calling : ℕ
  pub structured_output : ℕ
  pub image_input : ℕ
  pub chat_completions : ℕ
  pub discovered : ℕ

-- One value of a set of enum values, in the order of its numbers.
unfoldable pub sorted_set {ℓ} : {A : Type ℓ} → (A → Option ℕ) → List A → List ℕ
sorted_set f values = sort_by compare (collect_distinct f values)

unfoldable pub modality_of : Enums → Text → Option ℕ
modality_of enums value =
    let v = trim_space value in
    if v == codes "text"
    then some enums.text
    else if v == codes "image"
    then some enums.image
    else if v == codes "audio"
    then some enums.audio
    else if v == codes "video"
    then some enums.video
    else none

unfoldable pub parse_modalities : Enums → List Text → List ℕ
parse_modalities enums values = sorted_set (modality_of enums) values
