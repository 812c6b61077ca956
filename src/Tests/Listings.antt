-- ===== src/Tests/Listings.antt =====
-- The laws of filters, pages, references and stored observations at concrete values.
use code_code_platform_catal.Prelude.{
  ℕ, ◌≡◌, ◌≤◌, ◌+◌, ◌++◌, refl, inl, true, false, List, [], ◌∷◌, Option, none, some, length, map,
  ◌==◌, IsDistinct,
}
use code_code_platform_catal.Text.{Text, text_eq, codes}
use code_code_platform_catal.Models.Registry.{RegistrySource}
use code_code_platform_catal.Store.Filter.{
  ListFilter, empty_filter, parsed, parse_definition_list_filter, with_badge,
}
use code_code_platform_catal.Store.Filter.Laws.{
  IsValidFilter, parse_definition_list_filter-IsValidFilter,
}
use code_code_platform_catal.Store.Pages.{
  ModelRef, ref_key, has_ref_key, scan_refs, resolve_unique_model_ref, resolved,
  normalize_page_size, page_of,
}
use code_code_platform_catal.Store.Codec.{
  KindNumbers, observation_key, normalize_registry_observations,
}
use code_code_platform_catal.Store.Codec.Laws.{normalize_registry_observations-IsDistinct}

abbrev free_filter : ListFilter
free_filter = record {
  vendor_ids = [];
  model_id = [];
  query = [];
  source_ids = [];
  badge = codes "free";
  category = [];
  lifecycle_status_exclude = [];
}

free_parsed : parse_definition_list_filter (codes "badge=Free") ≡ parsed free_filter
unfolding parse_definition_list_filter code_code_platform_catal.Text.trim
    code_code_platform_catal.Text.is_space code_code_platform_catal.Store.Filter.parse_clauses
    code_code_platform_catal.Text.split code_code_platform_catal.Store.Filter.parse_clause
    code_code_platform_catal.Text.cut code_code_platform_catal.Store.Filter.assign_values
    code_code_platform_catal.Store.Filter.parse_filter_values
    code_code_platform_catal.Prelude.collect_distinct
    code_code_platform_catal.ModelIdentity.Candidates.candidate
    code_code_platform_catal.Store.Filter.assign_field
    code_code_platform_catal.Store.Filter.field_of code_code_platform_catal.Prelude.list_beq
    code_code_platform_catal.Store.Filter.single code_code_platform_catal.Store.Filter.badge_case
    code_code_platform_catal.Models.Badges.normalize_definition_source_badge
    code_code_platform_catal.ModelIdentity.Slug.collapse_dashes
    code_code_platform_catal.ModelIdentity.Slug.normalized_vendor_slug
    code_code_platform_catal.ModelIdentity.Slug.replace_dashes
    code_code_platform_catal.ModelIdentity.Slug.vendor_separator
    code_code_platform_catal.Models.Authority.normalize_definition_source_ids
    code_code_platform_catal.Models.Authority.normalize_source_id
    code_code_platform_catal.Models.Authority.source_authority_priorities
    code_code_platform_catal.Models.Badges.source_badges code_code_platform_catal.Prelude.get
    code_code_platform_catal.Prelude.collect_from code_code_platform_catal.Prelude.contains
    code_code_platform_catal.Prelude.push_distinct code_code_platform_catal.Store.Filter.source_case
    code_code_platform_catal.Store.Filter.trimmed_values with_badge
    code_code_platform_catal.Store.Filter.with_category
    code_code_platform_catal.Store.Filter.with_lifecycle
    code_code_platform_catal.Store.Filter.with_model_id
    code_code_platform_catal.Store.Filter.with_query
    code_code_platform_catal.Store.Filter.with_source_ids
    code_code_platform_catal.Store.Filter.with_vendor_ids code_code_platform_catal.Text.is_upper
    code_code_platform_catal.Text.lower_byte code_code_platform_catal.Text.trim_left
    code_code_platform_catal.Text.trim_right code_code_platform_catal.Text.contains_text
    code_code_platform_catal.Text.has_prefix code_code_platform_catal.Text.split_from
free_parsed = refl

-- A value that contains "AND" is cut at it.
brand_test :
    parse_definition_list_filter (codes "query=BRAND")
    ≡ parse_definition_list_filter (codes "query=BR")
unfolding parse_definition_list_filter code_code_platform_catal.Text.trim
    code_code_platform_catal.Text.is_space code_code_platform_catal.Text.split
    code_code_platform_catal.Store.Filter.parse_clauses
    code_code_platform_catal.Store.Filter.parse_clause
brand_test = refl

parse_definition_list_filter-IsValidFilter_example : IsValidFilter free_filter
parse_definition_list_filter-IsValidFilter_example =
    parse_definition_list_filter-IsValidFilter (codes "badge=Free") free_filter free_parsed

abbrev rows : List ℕ
rows = 5 ∷ 6 ∷ 7 ∷ []

abbrev llama : ModelRef
llama = record { vendor_id = codes "meta"; model_id = codes "llama" }

llama_resolved : resolve_unique_model_ref (scan_refs [] (llama ∷ llama ∷ [])) ≡ resolved llama
unfolding resolve_unique_model_ref scan_refs
    code_code_platform_catal.Store.Pages.append_unique_model_refs has_ref_key
    code_code_platform_catal.Prelude.list_beq
    code_code_platform_catal.Models.Definition.identity_key code_code_platform_catal.Text.trim
    code_code_platform_catal.Text.is_space
llama_resolved = refl

abbrev kinds : KindNumbers
kinds = record { discovered = 2; preset = 1 }

abbrev observation : RegistrySource
observation = record {
  source_id = codes "cerebras";
  kind = 1;
  is_direct = true;
  source_model_id = codes "m";
  definition = none;
  badges = [];
  pricing = none;
}

normalize_registry_observations-IsDistinct_example : IsDistinct (
    map observation_key
      (normalize_registry_observations (some observation ∷ some observation ∷ [])))
normalize_registry_observations-IsDistinct_example =
    normalize_registry_observations-IsDistinct (some observation ∷ some observation ∷ [])
