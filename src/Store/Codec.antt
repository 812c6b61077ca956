-- ===== src/Store/Codec.antt =====
-- store/source_model_kind.go and the normalizations of store/codec.go.
pub mod Laws
use code_code_platform_catal.Prelude.{
  ℕ, Bool, true, false, ◌&&◌, ◌≡◌, ◌↔◌, List, [], ◌∷◌, ◌++◌, Option, none, some, if◌then◌else◌,
  ◌==◌, nat_eq, contains, collect_distinct, get,
}
use code_code_platform_catal.Text.{Text, codes, text_eq, is_empty, trim_space, to_lower}
use code_code_platform_catal.ModelIdentity.Candidates.{ModelAlias}
use code_code_platform_catal.Models.Types.{ModelVersion}
use code_code_platform_catal.Models.Definition.{alias_eq, merged_alias}
use code_code_platform_catal.Models.Collected.{bool_key}
use code_code_platform_catal.Models.Registry.{RegistrySource, normalize_registry_model_source}

-- The contract's numbers of the two kinds.
pub record KindNumbers : Type 0 where
  pub discovered : ℕ
  pub preset : ℕ

unfoldable pub registry_model_source_kind_to_db_string : KindNumbers → ℕ → Text
registry_model_source_kind_to_db_string kinds kind =
    if kind == kinds.discovered then codes "discovered" else codes "preset"

unfoldable pub registry_model_source_kind_from_db_string : KindNumbers → Text → ℕ
registry_model_source_kind_from_db_string kinds kind =
    if trim_space (to_lower kind) == codes "discovered" then kinds.discovered else kinds.preset

unfoldable pub observation_key : RegistrySource → Text
observation_key s = s.source_id ++ 0 ∷ s.source_model_id ++ 0 ∷ bool_key s.is_direct

-- The loop of `normalizeRegistryObservations`; `seen` holds the keys.
unfoldable pub keep_observations : List Text → List (Option RegistrySource) → List RegistrySource
keep_observations seen [] = []
keep_observations seen (none ∷ observations) = keep_observations seen observations
keep_observations seen (some observation ∷ observations) =
    let normalized = normalize_registry_model_source observation in
    let k = observation_key normalized in
    elim (is_empty normalized.source_id) [
      | true ↦ keep_observations seen observations
      | false ↦ elim (contains seen k) [
        | true ↦ keep_observations seen observations
        | false ↦ normalized ∷ keep_observations (k ∷ seen) observations
      ]
    ]

unfoldable pub normalize_registry_observations : List (Option RegistrySource) → List RegistrySource
normalize_registry_observations observations = keep_observations [] observations

unfoldable pub normalize_model_definition_aliases : Option ModelVersion → List ModelAlias
normalize_model_definition_aliases none = []
normalize_model_definition_aliases (some d) = collect_distinct merged_alias d.aliases
