-- ===== src/Store/Filter/Laws.antt =====
-- models/store/list_query.go and definition_filter.go: the parsed filter.
use mathlib.Core.Path.{subst}
use code_code_platform_catal.Prelude.{
  ◌≡◌, true, ◌||◌, List, [], ◌∷◌, some, arith, inl, inr, Bool-cases, Option-cases, contains,
  IsDistinct, collect_distinct-IsDistinct,
}
use code_code_platform_catal.Text.{Text, codes, text_eq, is_empty, trim_space, to_lower, split, cut}
use code_code_platform_catal.Models.Authority.{normalize_source_id, normalize_definition_source_ids}
use code_code_platform_catal.Models.Badges.{source_badges, normalize_definition_source_badge}
use code_code_platform_catal.Store.Filter.{
  ListFilter, empty_filter, Parsed, parsed, invalid, Field, vendor_id_field, model_id_field,
  query_field, source_id_field, badge_field, category_field, lifecycle_field, unknown_field,
  field_of, with_vendor_ids, with_model_id, with_query, with_source_ids, with_badge, with_category,
  with_lifecycle, single, source_case, badge_case, assign_field, assign_values, parse_clause,
  parse_clauses, parse_definition_list_filter, parse_filter_values,
}

-- The badge is one that the program knows, or is not set; no source stands twice.
abbrev pub IsValidFilter : ListFilter → Type 0
IsValidFilter f =
    ((contains source_badges f.badge || is_empty f.badge) ≡ true) × IsDistinct f.source_ids

abbrev pub IsValidParsed : Parsed ListFilter → Type 0
IsValidParsed (parsed f) = IsValidFilter f
IsValidParsed (invalid e) = Unit

single-IsValid :
    (values : List Text) (k : Text → Parsed ListFilter)
    → ((v : Text) → IsValidParsed (k v))
    → IsValidParsed (single values k)
unfolding single
single-IsValid [] k h = tt
single-IsValid (v ∷ []) k h = h v
single-IsValid (v ∷ w ∷ values) k h = tt

known_badge :
    (raw badge : Text)
    → normalize_definition_source_badge raw ≡ some badge
    → contains source_badges badge ≡ true
unfolding normalize_definition_source_badge
known_badge raw badge h = elim (Bool-cases (contains source_badges (trim_space (to_lower raw)))) [
  | inl known ↦ ground (arith, h, known)
  | inr unknown ↦ absurd (ground (arith, h, unknown))
]

badge_case-IsValid :
    (f : ListFilter) (raw : Text)
    → IsValidFilter f
    → IsValidParsed (badge_case f (normalize_definition_source_badge raw))
unfolding badge_case with_badge
badge_case-IsValid f raw (_, d) = elim (Option-cases (normalize_definition_source_badge raw)) [
  | inl unknown ↦ rw (unknown, badge_case) tt
  | inr (badge, e) ↦ rw (e, badge_case) (ground (arith, known_badge raw badge e), d)
]

source_case-IsValid :
    (f : ListFilter) (ids : List Text)
    → IsValidFilter f
    → IsDistinct ids
    → IsValidParsed (source_case f ids)
unfolding source_case with_source_ids
source_case-IsValid f [] (b, _) d = tt
source_case-IsValid f (id ∷ ids) (b, _) d = (b, d)

normalize_definition_source_ids-IsDistinct :
    (ids : List Text) → IsDistinct (normalize_definition_source_ids ids)
unfolding normalize_definition_source_ids
normalize_definition_source_ids-IsDistinct ids = collect_distinct-IsDistinct normalize_source_id ids

assign_field-IsValid :
    (f : ListFilter) (field : Field) (values : List Text)
    → IsValidFilter f
    → IsValidParsed (assign_field f field values)
unfolding assign_field with_vendor_ids with_model_id with_query with_category with_lifecycle
assign_field-IsValid f vendor_id_field values h = h
assign_field-IsValid f model_id_field values h = single-IsValid values _ (λ v. h)
assign_field-IsValid f query_field values h = single-IsValid values _ (λ v. h)
assign_field-IsValid f source_id_field values h =
    source_case-IsValid f _ h (normalize_definition_source_ids-IsDistinct values)
assign_field-IsValid f badge_field values h =
    single-IsValid values _ (λ v. badge_case-IsValid f v h)
assign_field-IsValid f category_field values h = single-IsValid values _ (λ v. h)
assign_field-IsValid f lifecycle_field values h = h
assign_field-IsValid f unknown_field values h = tt

assign_values-IsValid :
    (f : ListFilter) (field : Text) (values : List Text)
    → IsValidFilter f
    → IsValidParsed (assign_values f field values)
unfolding assign_values
assign_values-IsValid f field [] h = tt
assign_values-IsValid f field (v ∷ values) h =
    assign_field-IsValid f (field_of field) (v ∷ values) h

parse_clause-IsValid :
    (f : ListFilter) (raw : Text) → IsValidFilter f → IsValidParsed (parse_clause f raw)
unfolding parse_clause
parse_clause-IsValid f raw h = elim (Bool-cases (is_empty (trim_space raw))) [
  | inl blank ↦ rw (blank, parse_clause) h
  | inr clause ↦ elim (Option-cases (cut b'=' (trim_space raw))) [
    | inl bare ↦ rw (clause, bare, parse_clause) tt
    | inr ((field, values), e) ↦
        rw (clause, e, parse_clause)
          (assign_values-IsValid f (trim_space field) (parse_filter_values values) h)
  ]
]

parse_clauses-IsValid :
    (f : ListFilter) (clauses : List Text)
    → IsValidFilter f
    → IsValidParsed (parse_clauses f clauses)
unfolding parse_clauses
parse_clauses-IsValid f [] h = h
parse_clauses-IsValid f (clause ∷ clauses) h =
    continue (parse_clause f clause) (parse_clause-IsValid f clause h)
      (λ next valid. parse_clauses-IsValid next clauses valid)
  where
    continue :
        (o : Parsed ListFilter)
        → IsValidParsed o
        → ((next : ListFilter) → IsValidFilter next → IsValidParsed (parse_clauses next clauses))
        → IsValidParsed
            (elim o [ invalid e ↦ invalid e | parsed next ↦ parse_clauses next clauses ])
    continue (parsed next) valid go = go next valid
    continue (invalid e) valid go = tt

empty_filter-IsValid : IsValidFilter empty_filter
empty_filter-IsValid = (ground arith, tt)

parse_definition_list_filter-IsValid :
    (raw : Text) → IsValidParsed (parse_definition_list_filter raw)
unfolding parse_definition_list_filter
parse_definition_list_filter-IsValid raw = elim (Bool-cases (is_empty (trim_space raw))) [
  | inl blank ↦ rw (blank, parse_definition_list_filter) empty_filter-IsValid
  | inr text ↦
      rw (text, parse_definition_list_filter)
        (parse_clauses-IsValid empty_filter (split (codes "AND") (trim_space raw))
          empty_filter-IsValid)
]

-- A filter that is parsed without an error names only a known badge, and no source twice.
pub parse_definition_list_filter-IsValidFilter :
    (raw : Text) (f : ListFilter) → parse_definition_list_filter raw ≡ parsed f → IsValidFilter f
parse_definition_list_filter-IsValidFilter raw f h =
    subst IsValidParsed h (parse_definition_list_filter-IsValid raw)
