-- ===== src/Store/Query.antt =====
-- models/store/query_list.go: the conditions that a filter adds to the query of a listing, as the
-- rows that they keep, with SQL's `like`.
pub mod Laws
use code_code_platform_catal.Prelude.{
  ℕ, Bool, true, false, ◌||◌, ◌&&◌, List, [], ◌∷◌, ◌++◌, map, Option, none, some, if◌then◌else◌,
  ◌==◌, nat_eq, contains, ◌>>=◌,
}
use code_code_platform_catal.Text.{Text, codes, text_eq, is_empty, trim_space, to_lower}
use code_code_platform_catal.ModelIdentity.Slug.{normalized_vendor_slug}
use code_code_platform_catal.Models.Authority.{normalize_definition_source_ids}
use code_code_platform_catal.Models.Badges.{normalize_definition_source_badge}
use code_code_platform_catal.Store.Filter.{ListFilter}
use code_code_platform_catal.Store.Json.{encode_string_slice}
use code_code_platform_catal.Store.Tables.{
  RowKey, row_key_eq, EntryRow, AliasRow, ObservationRow, Tables,
}
use code_code_platform_catal.Store.Write.{Context}

-- The byte 92 is the backslash.
unfoldable pub escape_byte : ℕ → Text
escape_byte c = if c == 92 || c == b'%' || c == b'_' then 92 ∷ c ∷ [] else c ∷ []

unfoldable pub escape : Text → Text
escape [] = []
escape (c ∷ s) = escape_byte c ++ escape s

unfoldable pub like_contains_pattern : Text → Text
like_contains_pattern value = b'%' ∷ (escape (to_lower (trim_space value)) ++ b'%' ∷ [])

-- The first byte passes the test, and the rest the other one.
abbrev pub first_then : (ℕ → Bool) → (Text → Bool) → Text → Bool
first_then test next [] = false
first_then test next (c ∷ s) = test c && next s

-- The text or what is left of it after some bytes passes.
abbrev pub some_rest : (Text → Bool) → Text → Bool
some_rest test [] = test []
some_rest test (c ∷ s) = test (c ∷ s) || some_rest test s

-- `s like pattern escape '\'`; the flag tells that the byte before was the escape.
unfoldable pub like : Bool → Text → Text → Bool
like escaped [] s = is_empty s
like true (d ∷ p) s = first_then (λ c. c == d) (like false p) s
like false (d ∷ p) s =
    let plain = like false p in
    let quoted = like true p in
    if d == b'%'
    then some_rest plain s
    else if d == b'_'
    then first_then (λ c. true) plain s
    else if d == 92
    then quoted s
    else first_then (λ c. c == d) plain s

-- `replace(text, '-', ' ')`.
unfoldable pub spaced : Text → Text
spaced text = map (λ c. if c == b'-' then b' ' else c) text

abbrev pub like_lower : Text → Text → Bool
like_lower pattern text = like false pattern (to_lower text)

abbrev pub like_spaced : Text → Text → Bool
like_spaced pattern text = like_lower pattern text || like_lower pattern (spaced text)

unfoldable pub alias_like : Text → RowKey → List AliasRow → Bool
alias_like pattern k [] = false
alias_like pattern k (row ∷ rows) =
    (row.at == k && like_spaced pattern row.alias_value) || alias_like pattern k rows

unfoldable pub observation_like : Text → RowKey → List ObservationRow → Bool
observation_like pattern k [] = false
observation_like pattern k (row ∷ rows) =
    (row.at == k && (like_spaced pattern row.source_id || like_spaced pattern row.source_model_id))
    || observation_like pattern k rows

-- What the database makes of `jsonb`: `coalesce(definition->>'key', '')`, and `badges @> raw`.
pub record JsonColumns : Type 0 where
  pub text_of : Text → Text → Text
  pub holds_all : Text → Text → Bool

unfoldable pub has_observation_of : List Text → RowKey → List ObservationRow → Bool
has_observation_of source_ids k [] = false
has_observation_of source_ids k (row ∷ rows) =
    (row.at == k && contains source_ids row.source_id) || has_observation_of source_ids k rows

abbrev pub no_values : List Text → Bool
no_values [] = true
no_values (_ ∷ _) = false

unfoldable pub normalize_vendor_ids : List Text → List Text
normalize_vendor_ids [] = []
normalize_vendor_ids (value ∷ values) =
    let rest = normalize_vendor_ids values in
    let normalized = normalized_vendor_slug value in
    if is_empty normalized then rest else normalized ∷ rest

module _ (context : Context Tables) (columns : JsonColumns) (tables : Tables) where
  -- The condition of `addSearch`.
  unfoldable pub search_like : Text → EntryRow → Bool
  search_like pattern row =
      like_spaced pattern row.at.model_id
      || like_spaced pattern row.at.vendor_id
      || like_lower pattern (columns.text_of row.definition (codes "display_name"))
      || like_lower pattern (columns.text_of row.definition (codes "canonical_model_id"))
      || like_spaced pattern (columns.text_of row.definition (codes "family_slug"))
      || alias_like pattern row.at tables.aliases
      || observation_like pattern row.at tables.observations

  unfoldable pub search_keeps : Text → EntryRow → Bool
  search_keeps raw row =
      let query = trim_space raw in
      if is_empty query then true else search_like (like_contains_pattern query) row

  unfoldable pub vendor_keeps : List Text → EntryRow → Bool
  vendor_keeps vendor_ids row =
      no_values vendor_ids || contains (normalize_vendor_ids vendor_ids) row.at.vendor_id

  unfoldable pub model_keeps : Text → EntryRow → Bool
  model_keeps model_id row =
      is_empty (trim_space model_id) || row.at.model_id == trim_space model_id

  unfoldable pub source_keeps : List Text → EntryRow → Bool
  source_keeps source_ids row =
      no_values source_ids
      || has_observation_of (normalize_definition_source_ids source_ids) row.at tables.observations

  -- The encoding of the badge may fail, and the query with it.
  unfoldable pub badge_keeps : Text → Option (EntryRow → Bool)
  badge_keeps raw = elim (normalize_definition_source_badge raw) [
    | none ↦ some (λ row. true)
    | some badge ↦ do
      encoded ← encode_string_slice context.json (badge ∷ [])
      some (λ row. columns.holds_all row.badges encoded)
  ]

  -- `apply` of a filter without a category and a lifecycle.
  unfoldable pub apply : ListFilter → Option (EntryRow → Bool)
  apply filter = do
    badge ← badge_keeps filter.badge
    some (λ row.
        vendor_keeps filter.vendor_ids row
        && model_keeps filter.model_id row
        && badge row
        && search_keeps filter.query row
        && source_keeps filter.source_ids row)
