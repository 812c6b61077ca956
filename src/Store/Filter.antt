-- ===== src/Store/Filter.antt =====
-- store/list_query.go, store/page_size.go and store/definition_filter.go: the filter of a listing.
pub mod Laws
use code_code_platform_catal.Prelude.{
  ℕ, Bool, true, false, ◌&&◌, ◌||◌, List, [], ◌∷◌, ◌++◌, Option, none, some, if◌then◌else◌, ◌==◌,
  nat_eq, collect_distinct,
}
use code_code_platform_catal.Text.{Text, codes, text_eq, is_empty, trim_space, to_lower, split, cut}
use code_code_platform_catal.ModelIdentity.Slug.{normalized_vendor_slug}
use code_code_platform_catal.ModelIdentity.Candidates.{candidate}
use code_code_platform_catal.Models.Authority.{normalize_definition_source_ids}
use code_code_platform_catal.Models.Badges.{normalize_definition_source_badge}

-- `modelservicev1.ModelListFilter`.
pub record ListFilter : Type 0 where
  pub vendor_ids : List Text
  pub model_id : Text
  pub query : Text
  pub source_ids : List Text
  pub badge : Text
  pub category : Text
  pub lifecycle_status_exclude : List Text

abbrev pub empty_filter : ListFilter
empty_filter = record {
  vendor_ids = [];
  model_id = [];
  query = [];
  source_ids = [];
  badge = [];
  category = [];
  lifecycle_status_exclude = [];
}

-- The validation errors, by their messages.
pub data FilterError : Type 0 where
  unsupported_clause : FilterError
  empty_values : FilterError
  multiple_values : FilterError
  unsupported_source : FilterError
  unsupported_badge : FilterError
  unsupported_field : FilterError

pub data Parsed (A : Type 0) : Type 0 where
  parsed : A → Parsed A
  invalid : FilterError → Parsed A

-- `parseFilterValues`.
unfoldable pub parse_filter_values : Text → List Text
parse_filter_values raw = collect_distinct candidate (split (codes ",") raw)

unfoldable pub trimmed_values : List Text → List Text
trimmed_values [] = []
trimmed_values (value ∷ values) =
    let t = trim_space value in
    let rest = trimmed_values values in if is_empty t then rest else t ∷ rest

-- The fields that the switch knows.
pub data Field : Type 0 where
  vendor_id_field : Field
  model_id_field : Field
  query_field : Field
  source_id_field : Field
  badge_field : Field
  category_field : Field
  lifecycle_field : Field
  unknown_field : Field

unfoldable pub field_of : Text → Field
field_of field =
    if field == codes "vendor_id"
    then vendor_id_field
    else if field == codes "model_id"
    then model_id_field
    else if field == codes "query"
    then query_field
    else if field == codes "source_id"
    then source_id_field
    else if field == codes "badge"
    then badge_field
    else if field == codes "category"
    then category_field
    else if field == codes "lifecycle_status_exclude"
    then lifecycle_field
    else unknown_field

-- The fields of the filter, as the cases of the switch assign them.
unfoldable pub with_vendor_ids : ListFilter → List Text → ListFilter
with_vendor_ids f v = record {
  vendor_ids = v;
  model_id = f.model_id;
  query = f.query;
  source_ids = f.source_ids;
  badge = f.badge;
  category = f.category;
  lifecycle_status_exclude = f.lifecycle_status_exclude;
}

unfoldable pub with_model_id : ListFilter → Text → ListFilter
with_model_id f v = record {
  vendor_ids = f.vendor_ids;
  model_id = v;
  query = f.query;
  source_ids = f.source_ids;
  badge = f.badge;
  category = f.category;
  lifecycle_status_exclude = f.lifecycle_status_exclude;
}

unfoldable pub with_query : ListFilter → Text → ListFilter
with_query f v = record {
  vendor_ids = f.vendor_ids;
  model_id = f.model_id;
  query = v;
  source_ids = f.source_ids;
  badge = f.badge;
  category = f.category;
  lifecycle_status_exclude = f.lifecycle_status_exclude;
}

unfoldable pub with_source_ids : ListFilter → List Text → ListFilter
with_source_ids f v = record {
  vendor_ids = f.vendor_ids;
  model_id = f.model_id;
  query = f.query;
  source_ids = v;
  badge = f.badge;
  category = f.category;
  lifecycle_status_exclude = f.lifecycle_status_exclude;
}

unfoldable pub with_badge : ListFilter → Text → ListFilter
with_badge f v = record {
  vendor_ids = f.vendor_ids;
  model_id = f.model_id;
  query = f.query;
  source_ids = f.source_ids;
  badge = v;
  category = f.category;
  lifecycle_status_exclude = f.lifecycle_status_exclude;
}

unfoldable pub with_category : ListFilter → Text → ListFilter
with_category f v = record {
  vendor_ids = f.vendor_ids;
  model_id = f.model_id;
  query = f.query;
  source_ids = f.source_ids;
  badge = f.badge;
  category = v;
  lifecycle_status_exclude = f.lifecycle_status_exclude;
}

unfoldable pub with_lifecycle : ListFilter → List Text → ListFilter
with_lifecycle f v = record {
  vendor_ids = f.vendor_ids;
  model_id = f.model_id;
  query = f.query;
  source_ids = f.source_ids;
  badge = f.badge;
  category = f.category;
  lifecycle_status_exclude = v;
}

-- A case that wants one value.
unfoldable pub single : List Text → (Text → Parsed ListFilter) → Parsed ListFilter
single [] k = invalid multiple_values
single (v ∷ []) k = k v
single (v ∷ w ∷ values) k = invalid multiple_values

unfoldable pub source_case : ListFilter → List Text → Parsed ListFilter
source_case filter [] = invalid unsupported_source
source_case filter (id ∷ ids) = parsed (with_source_ids filter (id ∷ ids))

unfoldable pub badge_case : ListFilter → Option Text → Parsed ListFilter
badge_case filter none = invalid unsupported_badge
badge_case filter (some badge) = parsed (with_badge filter badge)

-- The switch over the field.
unfoldable pub assign_field : ListFilter → Field → List Text → Parsed ListFilter
assign_field filter vendor_id_field values = parsed (with_vendor_ids filter values)
assign_field filter model_id_field values = single values (λ v. parsed (with_model_id filter v))
assign_field filter query_field values = single values (λ v. parsed (with_query filter v))
assign_field filter source_id_field values =
    source_case filter (normalize_definition_source_ids values)
assign_field filter badge_field values =
    single values (λ v. badge_case filter (normalize_definition_source_badge v))
assign_field filter category_field values =
    single values (λ v. parsed (with_category filter (trim_space v)))
assign_field filter lifecycle_field values = parsed (with_lifecycle filter (trimmed_values values))
assign_field filter unknown_field values = invalid unsupported_field

unfoldable pub assign_values : ListFilter → Text → List Text → Parsed ListFilter
assign_values filter field [] = invalid empty_values
assign_values filter field (v ∷ values) = assign_field filter (field_of field) (v ∷ values)

-- The body of the loop over the clauses.
unfoldable pub parse_clause : ListFilter → Text → Parsed ListFilter
parse_clause filter raw =
    let clause = trim_space raw in
    if is_empty clause then parsed filter else elim (cut b'=' clause) [
      | none ↦ invalid unsupported_clause
      | some (field, values) ↦ assign_values filter (trim_space field) (parse_filter_values values)
    ]

unfoldable pub parse_clauses : ListFilter → List Text → Parsed ListFilter
parse_clauses filter [] = parsed filter
parse_clauses filter (clause ∷ clauses) = elim (parse_clause filter clause) [
  | invalid e ↦ invalid e
  | parsed next ↦ parse_clauses next clauses
]

unfoldable pub parse_definition_list_filter : Text → Parsed ListFilter
parse_definition_list_filter raw =
    let text = trim_space raw in
    if is_empty text
    then parsed empty_filter
    else parse_clauses empty_filter (split (codes "AND") text)

unfoldable pub resolve_list_filter : Option ListFilter → Text → Parsed ListFilter
resolve_list_filter (some structured) raw = parsed structured
resolve_list_filter none raw = parse_definition_list_filter raw

-- `modelv1.ModelCategory` and `modelv1.ModelLifecycleStatus`, the values that the switches name.
pub data ModelCategory : Type 0 where
  chat : ModelCategory
  embedding : ModelCategory
  rerank : ModelCategory
  image_gen : ModelCategory
  audio : ModelCategory
  video : ModelCategory
  moderation : ModelCategory

pub data LifecycleStatus : Type 0 where
  active : LifecycleStatus
  legacy : LifecycleStatus
  deprecated : LifecycleStatus
  eol : LifecycleStatus
  blocked : LifecycleStatus

-- The values are kept in place of their numbers; the result -1 for an unknown name is `none`.
unfoldable pub category_filter_to_int : Text → Option ModelCategory
category_filter_to_int category =
    let c = trim_space (to_lower category) in
    if c == codes "chat" || c == codes "1"
    then some chat
    else if c == codes "embedding" || c == codes "2"
    then some embedding
    else if c == codes "rerank" || c == codes "3"
    then some rerank
    else if c == codes "image_gen" || c == codes "4"
    then some image_gen
    else if c == codes "audio" || c == codes "5"
    then some audio
    else if c == codes "video" || c == codes "6"
    then some video
    else if c == codes "moderation" || c == codes "7"
    then some moderation
    else none

unfoldable pub lifecycle_status_to_int : Text → Option LifecycleStatus
lifecycle_status_to_int status =
    if status == codes "active" || status == codes "1"
    then some active
    else if status == codes "legacy" || status == codes "2"
    then some legacy
    else if status == codes "deprecated" || status == codes "3"
    then some deprecated
    else if status == codes "eol" || status == codes "4"
    then some eol
    else if status == codes "blocked" || status == codes "5"
    then some blocked
    else none

unfoldable pub lifecycle_status_filter_to_ints : List Text → List LifecycleStatus
lifecycle_status_filter_to_ints [] = []
lifecycle_status_filter_to_ints (status ∷ statuses) =
    let rest = lifecycle_status_filter_to_ints statuses in
    elim (lifecycle_status_to_int (trim_space (to_lower status))) [
      | none ↦ rest
      | some s ↦ s ∷ rest
    ]

unfoldable pub normalize_vendor_ids : List Text → List Text
normalize_vendor_ids [] = []
normalize_vendor_ids (value ∷ values) =
    let normalized = normalized_vendor_slug value in
    let rest = normalize_vendor_ids values in
    if is_empty normalized then rest else normalized ∷ rest
