-- ===== src/Store/Pages.antt =====
-- store/page_size.go, the total count of store/list_pagination.go, the page of `List` in
-- store/query_list.go, and the resolution of references in store/query_resolve.go.
pub mod Laws
use code_code_platform_catal.Prelude.{
  ℕ, Bool, true, false, ◌||◌, List, [], ◌∷◌, ◌++◌, ◌+◌, Option, none, some, if◌then◌else◌, ◌==◌,
  ltb, leb, length, take,
}
use code_code_platform_catal.Text.{Text, text_eq, is_empty, trim_space}
use code_code_platform_catal.Models.Types.{is_positive}
use code_code_platform_catal.Models.Definition.{identity_key}

-- The argument is the bit pattern of an int32.
unfoldable pub normalize_page_size : ℕ → ℕ
normalize_page_size page_size =
    if is_positive page_size then if ltb 100 page_size then 100 else page_size else 50

-- The count for a nil `remaining`, as `List` calls it, for numbers that are not negative.
unfoldable pub estimate_definition_list_total_count : ℕ → ℕ → Bool → ℕ
estimate_definition_list_total_count offset item_count has_more =
    if has_more then 0 else offset + item_count

-- What `List` makes of the rows of its query, which asks for one row more than the page.
pub record Page (A : Type 0) : Type 0 where
  pub items : List A
  pub has_more : Bool
  pub next_offset : ℕ
  pub total_count : ℕ

unfoldable pub page_of : {A : Type 0} → ℕ → ℕ → List A → Page A
page_of page_size offset rows =
    let more = ltb page_size (length rows) in
    let items = if more then take page_size rows else rows in
    record {
      items = items;
      has_more = more;
      next_offset = offset + length items;
      total_count = estimate_definition_list_total_count offset (length items) more;
    }

-- `modelv1.ModelRef`.
pub record ModelRef : Type 0 where
  pub vendor_id : Text
  pub model_id : Text

abbrev pub ref_key : ModelRef → Text
ref_key ref = identity_key ref.vendor_id ref.model_id

unfoldable pub has_ref_key : Text → List ModelRef → Bool
has_ref_key k [] = false
has_ref_key k (item ∷ items) = ref_key item == k || has_ref_key k items

unfoldable pub append_unique_model_refs : List ModelRef → ModelRef → List ModelRef
append_unique_model_refs items ref =
    if has_ref_key (ref_key ref) items then items else items ++ ref ∷ []

unfoldable pub scan_refs : List ModelRef → List ModelRef → List ModelRef
scan_refs refs [] = refs
scan_refs refs (row ∷ rows) = scan_refs (append_unique_model_refs refs row) rows

-- The outcomes of a resolution.
pub data Resolution : Type 0 where
  resolved : ModelRef → Resolution
  missing : Resolution
  ambiguous : Resolution
  required : Resolution
  failed : Resolution

unfoldable pub resolve_unique_model_ref : List ModelRef → Resolution
resolve_unique_model_ref [] = missing
resolve_unique_model_ref (ref ∷ []) = resolved ref
resolve_unique_model_ref (ref ∷ other ∷ refs) = ambiguous

-- The outcomes of `getRegistryEntry`.
pub data Lookup : Type 0 where
  entry_found : Lookup
  entry_missing : Lookup
  lookup_failed : Lookup

-- The database's answers; a query that fails is `none`, and its rows are as they are scanned.
pub record RefQueries : Type 0 where
  pub get_registry_entry : Text → Text → Lookup
  pub refs_by_model_id : Text → Text → Option (List ModelRef)
  pub refs_by_alias : Text → Text → Option (List ModelRef)

unfoldable pub resolve_by_alias : RefQueries → Text → Text → Resolution
resolve_by_alias db vendor_id name = elim (db.refs_by_alias vendor_id name) [
  | none ↦ failed
  | some rows ↦ resolve_unique_model_ref (scan_refs [] rows)
]

unfoldable pub or_alias : RefQueries → Text → Text → Resolution → Resolution
or_alias db vendor_id name (resolved ref) = resolved ref
or_alias db vendor_id name missing = resolve_by_alias db vendor_id name
or_alias db vendor_id name ambiguous = ambiguous
or_alias db vendor_id name required = required
or_alias db vendor_id name failed = failed

unfoldable pub resolve_by_query : RefQueries → Text → Text → Resolution
resolve_by_query db vendor_id name = elim (db.refs_by_model_id vendor_id name) [
  | none ↦ failed
  | some rows ↦ or_alias db vendor_id name (resolve_unique_model_ref (scan_refs [] rows))
]

-- `Resolve`.
unfoldable pub resolve : RefQueries → Text → Text → Resolution
resolve db raw_vendor raw_name =
    let name = trim_space raw_name in
    let vendor_id = trim_space raw_vendor in
    if is_empty name
    then required
    else if is_empty vendor_id
    then resolve_by_query db vendor_id name
    else elim (db.get_registry_entry vendor_id name) [
      | entry_found ↦ resolved (record { vendor_id = vendor_id; model_id = name })
      | entry_missing ↦ resolve_by_query db vendor_id name
      | lookup_failed ↦ failed
    ]
