-- ===== src/Store/Listing/Rows.antt =====
-- models/store/query_list.go: one request of a listing, by the rows that are left to list.
use code_code_platform_catal.Prelude.{
  ℕ, suc, ◌+◌, ◌≡◌, refl, ◌∙◌, Bool, true, false, List, [], ◌∷◌, map, some, arith, ltb, length,
  take, All, take-All, last,
}
use code_code_platform_catal.Text.{Text, text_eq, is_empty, trim_space}
use code_code_platform_catal.Models.Definition.{SurfaceIdentity}
use code_code_platform_catal.Models.Registry.{RegistryEntry, RegistrySource}
use code_code_platform_catal.Store.Tables.{EntryRow, Tables}
use code_code_platform_catal.Store.Write.{Context, at}
use code_code_platform_catal.Store.Pages.{
  Page, estimate_definition_list_total_count, normalize_page_size,
}
use code_code_platform_catal.Store.Tokens.{
  TokenCodec, decode_definition_list_page_token, encode_definition_list_page_token,
  decode_definition_list_continue_token, encode_definition_list_continue_token,
}
use code_code_platform_catal.Store.Scan.{scan_registry_entry_base, list_entry_sources}
use code_code_platform_catal.Store.Listing.{
  listed_rows, skip_rows, scan_rows, with_sources, next_token, respond, list_page, list,
}
use code_code_platform_catal.Store.Listing.Cut.{last-map, page_of-take}

-- A row that is read without an error: its columns are trimmed, and these are its entry and sources.
pub record IsReadable (context : Context Tables) (tables : Tables) (base : EntryRow → RegistryEntry)
    (sources : EntryRow → List RegistrySource) (row : EntryRow) : Type 0 where
  pub vendor : trim_space row.at.vendor_id ≡ row.at.vendor_id
  pub vendor_named : is_empty row.at.vendor_id ≡ false
  pub model : trim_space row.at.model_id ≡ row.at.model_id
  pub model_named : is_empty row.at.model_id ≡ false
  pub scanned :
      scan_registry_entry_base context row
      ≡ some (record { vendor_id = row.at.vendor_id; model_id = row.at.model_id }, base row)
  pub read :
      list_entry_sources context
        (at context (record { vendor_id = row.at.vendor_id; model_id = row.at.model_id }))
        tables.observations
      ≡ some (sources row)

-- The entry that a row is listed as.
abbrev pub item :
    (EntryRow → RegistryEntry) → (EntryRow → List RegistrySource) → EntryRow → RegistryEntry
item base sources row = record (base row) { sources = sources row }

module _ (context : Context Tables) (codec : TokenCodec) (matches : EntryRow → Bool) where
  module _ (tables : Tables) (base : EntryRow → RegistryEntry)
      (sources : EntryRow → List RegistrySource) where
    abbrev pub identified : EntryRow → SurfaceIdentity × RegistryEntry
    identified row = (record { vendor_id = row.at.vendor_id; model_id = row.at.model_id }, base row)

    scan_rows-IsReadable :
        (rows : List EntryRow)
        → All (IsReadable context tables base sources) rows
        → scan_rows context codec matches rows ≡ some (map identified rows)
    unfolding scan_rows
    scan_rows-IsReadable [] h = refl
    scan_rows-IsReadable (row ∷ rows) (r, h) =
        ground (arith, r.scanned, scan_rows-IsReadable rows h)

    with_sources-IsReadable :
        (rows : List EntryRow)
        → All (IsReadable context tables base sources) rows
        → with_sources context codec matches tables (map identified rows)
          ≡ some (map (item base sources) rows)
    unfolding with_sources
    with_sources-IsReadable [] h = refl
    with_sources-IsReadable (row ∷ rows) (r, h) =
        ground (arith, r.read, with_sources-IsReadable rows h)

    -- The page of the rows that are left.
    abbrev pub page_at : ℕ → ℕ → List EntryRow → Page (SurfaceIdentity × RegistryEntry)
    page_at n offset rows = record {
      items = map identified (take n rows);
      has_more = ltb n (length rows);
      next_offset = offset + length (take n rows);
      total_count =
          estimate_definition_list_total_count offset (length (take n rows)) (ltb n (length rows));
    }

    list_page-rows :
        (n offset : ℕ) (token : Text) (rows : List EntryRow)
        → skip_rows context codec matches
            (decode_definition_list_continue_token codec token)
            offset
            (listed_rows context codec matches tables)
          ≡ rows
        → All (IsReadable context tables base sources) rows
        → list_page context codec matches n (token, offset) tables
          ≡ respond context codec matches tables (page_at n offset rows)
    unfolding list_page
    list_page-rows n offset token rows left h =
        rw
          (
            left,
            scan_rows-IsReadable (take (suc n) rows)
                (take-All (IsReadable context tables base sources) (suc n) rows h),
            page_of-take identified n offset rows,
          )
          refl

    respond-page_at :
        (n offset : ℕ) (rows : List EntryRow)
        → All (IsReadable context tables base sources) rows
        → respond context codec matches tables (page_at n offset rows)
          ≡ some (record {
            items = map (item base sources) (take n rows);
            next_page_token = next_token context codec matches (page_at n offset rows);
            total_count =
                estimate_definition_list_total_count offset
                  (length (take n rows))
                  (ltb n (length rows));
          })
    unfolding respond
    respond-page_at n offset rows h =
        rw
          (with_sources-IsReadable (take n rows)
            (take-All (IsReadable context tables base sources) n rows h))
          refl

    pub next_token-done :
        (n offset : ℕ) (rows : List EntryRow)
        → ltb n (length rows) ≡ false
        → next_token context codec matches (page_at n offset rows) ≡ []
    unfolding next_token
    next_token-done n offset rows h = ground (arith, h)

    -- The token of a page names its last row.
    pub next_token-more :
        (n offset : ℕ) (rows : List EntryRow) (x : EntryRow)
        → ltb n (length rows) ≡ true
        → last (take n rows) ≡ some x
        → next_token context codec matches (page_at n offset rows)
          ≡ encode_definition_list_page_token codec
              (encode_definition_list_continue_token codec x.at.vendor_id x.at.model_id)
              (offset + length (take n rows))
    unfolding next_token
    next_token-more n offset rows x more end =
        let named : last (map identified (take n rows)) ≡ some (identified x) =
          last-map identified (take n rows) ∙ rw end refl in
        ground (arith, named, more)

    -- What one request gives: the page of the rows that are left, and the token of its last row.
    pub list-rows :
        (n page_size : ℕ) (token : Text) (rows : List EntryRow)
        → context.answers tables ≡ true
        → normalize_page_size page_size ≡ n
        → skip_rows context codec matches
            (decode_definition_list_continue_token codec
              (decode_definition_list_page_token codec token).0)
            (decode_definition_list_page_token codec token).1
            (listed_rows context codec matches tables)
          ≡ rows
        → All (IsReadable context tables base sources) rows
        → list context codec matches page_size token tables
          ≡ some (record {
            items = map (item base sources) (take n rows);
            next_page_token =
                next_token context codec matches
                  (page_at n (decode_definition_list_page_token codec token).1 rows);
            total_count =
                estimate_definition_list_total_count
                  (decode_definition_list_page_token codec token).1
                  (length (take n rows))
                  (ltb n (length rows));
          })
    unfolding list
    list-rows n page_size token rows up size left h =
        let (c, offset) = decode_definition_list_page_token codec token in
        rw (up, size) (list_page-rows n offset c rows left h ∙ respond-page_at n offset rows h)
