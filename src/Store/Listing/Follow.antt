-- ===== src/Store/Listing/Follow.antt =====
-- models/store/query_list.go: a client that follows the page tokens of a listing.
use code_code_platform_catal.Prelude.{
  ℕ, zero, suc, ◌+◌, ◌≤◌, ◌<◌, ◌≡◌, refl, sym, ap, ◌∙◌, Bool, true, false, ◌&&◌, List, [], ◌++◌,
  map, Option, none, some, arith, inl, inr, Bool-cases, Option-cases, ltb, length, take, drop,
  length-drop, length-take, All, take-All, drop-All, last-none, last-above, drop-IsRising, keep,
  last, last-All, IsRising, sort_by-IsRising, above, above-last, above-above, DistinctKeys,
  IsComparator, ◌==◌,
}
use code_code_platform_catal.Text.{Text, text_eq, is_empty}
use code_code_platform_catal.Models.Registry.{RegistryEntry, RegistrySource}
use code_code_platform_catal.Store.Tables.{EntryRow, Tables}
use code_code_platform_catal.Store.Write.{Context}
use code_code_platform_catal.Store.Pages.{normalize_page_size}
use code_code_platform_catal.Store.Pages.Laws.{normalize_page_size-bounds}
use code_code_platform_catal.Store.Tokens.{
  TokenCodec, ContinueToken, decode_definition_list_page_token, encode_definition_list_page_token,
  decode_definition_list_continue_token, encode_definition_list_continue_token,
}
use code_code_platform_catal.Store.Tokens.Laws.{IsTokenCodec, page_start, continue_start}
use code_code_platform_catal.Store.Listing.{
  ListResponse, cursor, compare_cursor, listed_rows, skip_rows, list,
}
use code_code_platform_catal.Store.Listing.Laws.{compare_cursor-IsComparator}
use code_code_platform_catal.Store.Listing.Cut.{take_whole, map-take-drop}
use code_code_platform_catal.Store.Listing.Told.{token_of}
use code_code_platform_catal.Store.Listing.Rows.{
  IsReadable, item, list-rows, next_token-done, next_token-more,
}

module _ (context : Context Tables) (codec : TokenCodec) (matches : EntryRow → Bool) where
  -- A client that asks for the next page until there is no token; it asks at most so often.
  unfoldable pub follow : ℕ → ℕ → Text → Tables → Option (List RegistryEntry)
  follow zero page_size token tables = none
  follow (suc n) page_size token tables = elim (list context codec matches page_size token tables) [
    | none ↦ none
    | some response ↦ elim (is_empty response.next_page_token) [
      | true ↦ some response.items
      | false ↦ elim (follow n page_size response.next_page_token tables) [
        | none ↦ none
        | some items ↦ some (response.items ++ items)
      ]
    ]
  ]

  follow-last :
      (k page_size : ℕ) (token : Text) (tables : Tables) (response : ListResponse)
      → list context codec matches page_size token tables ≡ some response
      → is_empty response.next_page_token ≡ true
      → follow (suc k) page_size token tables ≡ some response.items
  unfolding follow
  follow-last k page_size token tables response e end = ground (arith, e, end)

  follow-next :
      (k page_size : ℕ) (token : Text) (tables : Tables) (response : ListResponse)
      → (items : List RegistryEntry)
      → list context codec matches page_size token tables ≡ some response
      → is_empty response.next_page_token ≡ false
      → follow k page_size response.next_page_token tables ≡ some items
      → follow (suc k) page_size token tables ≡ some (response.items ++ items)
  unfolding follow
  follow-next k page_size token tables response items e more rest = ground (arith, e, more, rest)

  module _ (tables : Tables) (base : EntryRow → RegistryEntry)
      (sources : EntryRow → List RegistrySource) where
    module _ (law : IsTokenCodec codec) where
      module _ (order : IsComparator context.collate) where
        abbrev InOrder : List EntryRow → Type 0
        InOrder =
            IsRising cursor (compare_cursor context.collate)
              (compare_cursor-IsComparator context.collate order)

        abbrev after : ContinueToken → List EntryRow → List EntryRow
        after =
            above cursor (compare_cursor context.collate)
              (compare_cursor-IsComparator context.collate order)

        -- Reading on after a row of this page does not depend on what was read before.
        abbrev IsTail : List EntryRow → List EntryRow → Type 0
        IsTail all rows =
            (n : ℕ) (x : EntryRow)
            → last (take n rows) ≡ some x
            → after (cursor x) all ≡ after (cursor x) rows

        drop-IsTail :
            (n : ℕ) (all rows : List EntryRow) (x : EntryRow)
            → InOrder rows
            → last (take n rows) ≡ some x
            → IsTail all rows
            → (drop n rows ≡ after (cursor x) all) × IsTail all (drop n rows)
        drop-IsTail n all rows x r end tail =
            let lawful = compare_cursor-IsComparator context.collate order in
            let same : drop n rows ≡ after (cursor x) all = sym (
              tail n x end
              ∙ above-last cursor (compare_cursor context.collate) lawful n rows x r end) in
            (
              same,
              λ m y later.
                  sym (
                    above-above cursor (compare_cursor context.collate) lawful (cursor x) (cursor y)
                      all
                      (last-above cursor (compare_cursor context.collate) lawful (cursor x) m all y
                        (ap (λ l. last (take m l)) (sym same) ∙ later)))
                  ∙ ap (after (cursor y)) (sym same),
            )

        from_start :
            (rows : List EntryRow)
            → skip_rows context codec matches
                (decode_definition_list_continue_token codec
                  (decode_definition_list_page_token codec []).0)
                (decode_definition_list_page_token codec []).1
                rows
              ≡ rows
        unfolding skip_rows
        from_start rows =
            ap
              (λ (p : Text × ℕ).
                skip_rows context codec matches (decode_definition_list_continue_token codec p.0)
                  p.1 rows)
              (page_start codec law)
            ∙ ap (λ o. skip_rows context codec matches o 0 rows) (continue_start codec law)

        skip_rows-told :
            (o : Option ContinueToken) (c : ContinueToken) (offset : ℕ)
            → o ≡ some c
            → skip_rows context codec matches o offset (listed_rows context codec matches tables)
              ≡ after c (listed_rows context codec matches tables)
        unfolding skip_rows
        skip_rows-told o c offset e =
            ap
              (λ o.
                skip_rows context codec matches o offset (listed_rows context codec matches tables))
              e

        last_of_page :
            (n : ℕ) (rows : List EntryRow)
            → 1 ≤ n
            → ltb n (length rows) ≡ true
            → (x : EntryRow) × (last (take n rows) ≡ some x)
        last_of_page n rows one more = elim (Option-cases (last (take n rows))) [
          | inr found ↦ found
          | inl end ↦ absurd (
              ground
                (arith, one, more, length-take n rows, ap length (last-none (take n rows) end)))
        ]

        follow-rows :
            (k n page_size : ℕ) (token : Text) (rows : List EntryRow)
            → context.answers tables ≡ true
            → normalize_page_size page_size ≡ n
            → 1 ≤ n
            → length rows < k
            → skip_rows context codec matches
                (decode_definition_list_continue_token codec
                  (decode_definition_list_page_token codec token).0)
                (decode_definition_list_page_token codec token).1
                (listed_rows context codec matches tables)
              ≡ rows
            → InOrder rows
            → IsTail (listed_rows context codec matches tables) rows
            → All (IsReadable context tables base sources) rows
            → follow k page_size token tables ≡ some (map (item base sources) rows)
        follow-rows zero n page_size token rows up size one fuel left r tail h =
            absurd (omega (arith, fuel))
        follow-rows (suc k) n page_size token rows up size one fuel left r tail h =
            elim (Bool-cases (ltb n (length rows))) [
              | inr all ↦
                  let offset = (decode_definition_list_page_token codec token).1 in
                  follow-last k page_size token tables _
                    (list-rows context codec matches tables base sources n page_size token rows up
                      size left h)
                    (ap is_empty
                      (next_token-done context codec matches tables base sources n offset rows all))
                  ∙ ap (λ l. some (map (item base sources) l))
                      (take_whole n rows (ground (arith, all)))
              | inl more ↦
                  let offset = (decode_definition_list_page_token codec token).1 in
                  let (x, end) = last_of_page n rows one more in
                  let readable =
                    last-All (IsReadable context tables base sources) (take n rows) x end
                      (take-All (IsReadable context tables base sources) n rows h) in
                  let (some_token, told) =
                    token_of context codec tables base sources law x (offset + length (take n rows))
                      readable in
                  let (dropped, again) =
                    drop-IsTail n (listed_rows context codec matches tables) rows x r end tail in
                  let next =
                    next_token-more context codec matches tables base sources n offset rows x more
                      end in
                  let rest =
                    follow-rows k n page_size
                      (encode_definition_list_page_token codec
                        (encode_definition_list_continue_token codec x.at.vendor_id x.at.model_id)
                        (offset + length (take n rows)))
                      (drop n rows) up size one
                      (ground (arith, length-drop n rows, fuel, one, more))
                      (skip_rows-told _ (cursor x) _ told ∙ sym dropped)
                      (drop-IsRising cursor (compare_cursor context.collate)
                        (compare_cursor-IsComparator context.collate order) n rows r)
                      again (drop-All (IsReadable context tables base sources) n rows h) in
                  follow-next k page_size token tables _ (map (item base sources) (drop n rows))
                    (list-rows context codec matches tables base sources n page_size token rows up
                      size left h)
                    (ap is_empty next ∙ some_token)
                    (ap (λ t. follow k page_size t tables) next ∙ rest)
                  ∙ ap some (map-take-drop (item base sources) n rows)
            ]

        -- Let all the columns and JSON of the listed rows be readable, no two of them have the same
        -- vendor and model, the database's order of texts be lawful, and the tokens' encodings be
        -- read back. A client that follows the page tokens of an unchanged registry, whatever page
        -- size it asks for, gets after at most one request more than there are listed rows exactly
        -- the listed entries, each once, in the order of vendor and model.
        pub follow_all :
            (page_size : ℕ)
            → context.answers tables ≡ true
            → DistinctKeys cursor
                (compare_cursor context.collate)
                (compare_cursor-IsComparator context.collate order)
                (keep (λ row. row.at.namespace == context.namespace && matches row) tables.entries)
            → All
                (IsReadable context tables base sources)
                (listed_rows context codec matches tables)
            → follow (suc (length (listed_rows context codec matches tables))) page_size [] tables
              ≡ some (map (item base sources) (listed_rows context codec matches tables))
        follow_all page_size up distinct h =
            let rows = listed_rows context codec matches tables in
            let lawful = compare_cursor-IsComparator context.collate order in
            follow-rows (suc (length rows)) (normalize_page_size page_size) page_size [] rows up
              refl (normalize_page_size-bounds page_size).0 (omega arith) (from_start rows)
              (unfold listed_rows in
                sort_by-IsRising cursor (compare_cursor context.collate) lawful
                  (keep (λ row. row.at.namespace == context.namespace && matches row)
                    tables.entries)
                  distinct)
              (λ m x e. refl) h
