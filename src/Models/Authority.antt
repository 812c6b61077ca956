-- ===== src/Models/Authority.antt =====
-- source_authority.go, source_ids.go and source_priority.go: how far a source is trusted.
pub mod Order
use code_code_platform_catal.Prelude.{
  ℕ, Bool, true, false, List, [], ◌∷◌, Option, none, some, Ordering, if◌then◌else◌, ◌==◌, ltb, get,
  contains, collect_distinct, nat_eq, ◌||◌, ◌&&◌,
}
use code_code_platform_catal.Text.{Text, codes, text_eq, is_empty, trim_space, compare_text}
use code_code_platform_catal.ModelIdentity.Slug.{normalized_vendor_slug}
use code_code_platform_catal.Models.Types.{CollectedSource, CollectedEntry, is_positive}

abbrev pub source_id_openrouter : Text
source_id_openrouter = codes "openrouter"

abbrev pub source_id_modelscope : Text
source_id_modelscope = codes "modelscope"

abbrev pub source_id_cerebras : Text
source_id_cerebras = codes "cerebras"

abbrev pub source_id_github_models : Text
source_id_github_models = codes "github-models"

abbrev pub source_id_nvidia_integrate : Text
source_id_nvidia_integrate = codes "nvidia-integrate"

abbrev pub source_id_hugging_face_hub : Text
source_id_hugging_face_hub = codes "huggingface-hub"

unfoldable pub source_authority_priorities : List (Text × ℕ)
source_authority_priorities =
    (source_id_github_models, 600)
    ∷ (source_id_cerebras, 500)
    ∷ (source_id_modelscope, 400)
    ∷ (source_id_nvidia_integrate, 300)
    ∷ (source_id_hugging_face_hub, 200)
    ∷ (source_id_openrouter, 100)
    ∷ []

unfoldable pub preset_source_vendor_ids : List Text
preset_source_vendor_ids =
    source_id_github_models ∷ source_id_cerebras ∷ source_id_modelscope ∷ source_id_openrouter ∷ []

unfoldable pub lookup_source_authority_priority : Text → Option ℕ
lookup_source_authority_priority source_id =
    get source_authority_priorities (normalized_vendor_slug source_id)

abbrev pub is_some {ℓ} : {A : Type ℓ} → Option A → Bool
is_some none = false
is_some (some _) = true

unfoldable pub is_known_source_id : Text → Bool
is_known_source_id source_id =
    is_some (get source_authority_priorities (normalized_vendor_slug source_id))

unfoldable pub is_preset_source_vendor_id : Text → Bool
is_preset_source_vendor_id vendor_id =
    contains preset_source_vendor_ids (normalized_vendor_slug vendor_id)

-- `NormalizeSourceID`; its result "" for an unknown source is `none`.
unfoldable pub normalize_source_id : Text → Option Text
normalize_source_id source_id =
    let normalized = normalized_vendor_slug source_id in
    if is_some (get source_authority_priorities normalized) then some normalized else none

-- `NormalizeDefinitionSourceIDs`.
unfoldable pub normalize_definition_source_ids : List Text → List Text
normalize_definition_source_ids source_ids = collect_distinct normalize_source_id source_ids

unfoldable pub definition_source_authority_priority : Text → ℕ
definition_source_authority_priority source_id = elim (lookup_source_authority_priority source_id) [
  | none ↦ 0
  | some priority ↦ priority
]

-- A nil source has the zero values of its fields.
unfoldable pub collected_source_priority : Option CollectedSource → ℕ
collected_source_priority none = definition_source_authority_priority []
collected_source_priority (some source) =
    if is_positive source.authority_priority
    then source.authority_priority
    else definition_source_authority_priority source.source_id

abbrev pub source_id_of : Option CollectedSource → Text
source_id_of none = []
source_id_of (some source) = source.source_id

-- The loop of `collectedEntryAuthorityPriority`.
unfoldable pub max_priority : ℕ → List (Option CollectedSource) → ℕ
max_priority priority [] = priority
max_priority priority (source ∷ sources) =
    max_priority
      (if ltb priority (collected_source_priority source)
        then collected_source_priority source
        else priority)
      sources

unfoldable pub collected_entry_authority_priority : CollectedEntry → ℕ
collected_entry_authority_priority item = max_priority 0 item.sources

unfoldable pub compare_source_id : Text → Text → Ordering
compare_source_id left right =
    let l = trim_space left in
    let r = trim_space right in
    if l == r
    then Ordering.eq
    else if is_empty l
    then Ordering.gt
    else if is_empty r
    then Ordering.lt
    else compare_text l r

abbrev pub is_lt : Ordering → Bool
is_lt Ordering.lt = true
is_lt Ordering.eq = false
is_lt Ordering.gt = false

-- The loop's variables `bestPriority` and `bestSourceID`; the initial -1 and "" are `none`, which
-- every source replaces.
abbrev pub better : Option (ℕ × Text) → ℕ → Text → Bool
better none priority source_id = true
better (some (best_priority, best_id)) priority source_id =
    ltb best_priority priority
    || (priority == best_priority && is_lt (compare_source_id source_id best_id))

unfoldable pub best_source : Option (ℕ × Text) → List (Option CollectedSource) → Option (ℕ × Text)
best_source best [] = best
best_source best (source ∷ sources) =
    let priority = collected_source_priority source in
    let source_id = normalized_vendor_slug (source_id_of source) in
    best_source (if better best priority source_id then some (priority, source_id) else best)
      sources

unfoldable pub collected_entry_authority_source_id : CollectedEntry → Text
collected_entry_authority_source_id item = elim (best_source none item.sources) [
  | none ↦ []
  | some (_, source_id) ↦ source_id
]

unfoldable pub compare_collected_entry_authority : CollectedEntry → CollectedEntry → Ordering
compare_collected_entry_authority left right =
    let l = collected_entry_authority_priority left in
    let r = collected_entry_authority_priority right in
    if l == r
    then compare_source_id (collected_entry_authority_source_id left)
        (collected_entry_authority_source_id right)
    else if ltb r l
    then Ordering.lt
    else Ordering.gt
