-- ===== src/Store/Listing.antt =====
-- models/store/query_list.go: a page of the listing. Which rows the filter of the request keeps is a
-- function of the row.
pub mod Laws
pub mod Cut
pub mod Rows
pub mod Told
pub mod Follow
use code_code_platform_catal.Prelude.{
  ℕ, suc, Bool, true, false, List, [], ◌∷◌, Option, none, some, if◌then◌else◌, ◌==◌, ◌&&◌, nat_eq,
  sort_by, keep, is_gt, last, take, drop, ltb, ◌>>=◌, Ordering,
}
use code_code_platform_catal.Text.{Text, text_eq}
use code_code_platform_catal.Models.Definition.{SurfaceIdentity}
use code_code_platform_catal.Models.Registry.{RegistryEntry}
use code_code_platform_catal.Store.Tables.{RowKey, EntryRow, Tables}
use code_code_platform_catal.Store.Write.{Context, at}
use code_code_platform_catal.Store.Pages.{Page, page_of, normalize_page_size}
use code_code_platform_catal.Store.Tokens.{
  TokenCodec, ContinueToken, decode_definition_list_page_token, encode_definition_list_page_token,
  decode_definition_list_continue_token, encode_definition_list_continue_token,
}
use code_code_platform_catal.Store.Scan.{scan_registry_entry_base, list_entry_sources}

-- `ListModelsResponse`.
pub record ListResponse : Type 0 where
  pub items : List RegistryEntry
  pub next_page_token : Text
  pub total_count : ℕ

-- The columns by which the rows are ordered.
abbrev pub cursor : EntryRow → ContinueToken
cursor row = record { vendor_id = row.at.vendor_id; model_id = row.at.model_id }

-- SQL's order of two rows of two columns.
unfoldable pub compare_cursor : (Text → Text → Ordering) → ContinueToken → ContinueToken → Ordering
compare_cursor collate left right = elim (collate left.vendor_id right.vendor_id) [
  | Ordering.lt ↦ Ordering.lt
  | Ordering.eq ↦ collate left.model_id right.model_id
  | Ordering.gt ↦ Ordering.gt
]

module _ (context : Context Tables) (codec : TokenCodec) (matches : EntryRow → Bool) where
  -- The rows of the registry that the filter keeps, in the order of the listing.
  unfoldable pub listed_rows : Tables → List EntryRow
  listed_rows tables =
      sort_by (λ a b. compare_cursor context.collate (cursor a) (cursor b))
        (keep (λ row. row.at.namespace == context.namespace && matches row) tables.entries)

  -- `(vendor_id, model_id) > (…)`, or the offset where there is no continue token.
  unfoldable pub skip_rows : Option ContinueToken → ℕ → List EntryRow → List EntryRow
  skip_rows none offset rows = drop offset rows
  skip_rows (some c) offset rows =
      keep (λ row. is_gt (compare_cursor context.collate (cursor row) c)) rows

  unfoldable pub scan_rows : List EntryRow → Option (List (SurfaceIdentity × RegistryEntry))
  scan_rows [] = some []
  scan_rows (row ∷ rows) =
      let rest = scan_rows rows in
      do item ← scan_registry_entry_base context row; items ← rest; some (item ∷ items)

  -- `listEntrySourcesBatch` and the loop that follows it: the sources of each identity.
  unfoldable pub with_sources :
      Tables → List (SurfaceIdentity × RegistryEntry) → Option (List RegistryEntry)
  with_sources tables [] = some []
  with_sources tables ((identity, base) ∷ items) =
      let rest = with_sources tables items in
      do
        sources ← list_entry_sources context (at context identity) tables.observations
        entries ← rest
        some (record base { sources = sources } ∷ entries)

  unfoldable pub next_token : Page (SurfaceIdentity × RegistryEntry) → Text
  next_token page = elim (last page.items) [
    | none ↦ []
    | some (identity, _) ↦
        if page.has_more
        then encode_definition_list_page_token codec
            (encode_definition_list_continue_token codec identity.vendor_id identity.model_id)
            page.next_offset
        else []
  ]

  unfoldable pub respond : Tables → Page (SurfaceIdentity × RegistryEntry) → Option ListResponse
  respond tables page = do
    items ← with_sources tables page.items
    some (record {
      items = items;
      next_page_token = next_token page;
      total_count = page.total_count;
    })

  -- `List`; the page size is the bit pattern of an int32, the limit one row more than the page.
  unfoldable pub list_page : ℕ → Text × ℕ → Tables → Option ListResponse
  list_page page_size (continue_token, offset) tables = do
    scanned ← scan_rows (
        take (suc page_size) (
          skip_rows (decode_definition_list_continue_token codec continue_token) offset
            (listed_rows tables)))
    respond tables (page_of page_size offset scanned)

  unfoldable pub list : ℕ → Text → Tables → Option ListResponse
  list page_size page_token tables =
      if context.answers tables
      then list_page (normalize_page_size page_size)
          (decode_definition_list_page_token codec page_token) tables
      else none
