-- ===== src/Tests/Follow.antt =====
-- A registry with three entries, listed by pages of one entry. The tokens are encoded by moving the
-- bytes beyond the white space.
use code_code_platform_catal.Prelude.{
  ℕ, zero, suc, ◌+◌, ◌-◌, ◌≡◌, ◌≢◌, refl, sym, ap, ◌∙◌, Bool, true, false, ◌&&◌, List, [], ◌∷◌,
  ◌++◌, map, Option, none, some, arith, length, take, drop, take-append_left, drop-append_left,
  keep, All, DistinctKeys, ◌==◌,
}
use code_code_platform_catal.Text.{
  Text, codes, text_eq, is_empty, is_space, trim_space, trim_of_clean, compare_text,
  compare_text-IsComparator, StartsClean, EndsClean,
}
use code_code_platform_catal.Models.Registry.{RegistryEntry, RegistrySource}
use code_code_platform_catal.Store.Tables.{EntryRow, Tables}
use code_code_platform_catal.Store.Tokens.{
  PageToken, ContinueToken, TokenCodec, decode_definition_list_page_token,
  encode_definition_list_page_token,
}
use code_code_platform_catal.Store.Tokens.Laws.{
  IsTokenCodec, decode_definition_list_page_token-encode,
}
use code_code_platform_catal.Store.Listing.{listed_rows, cursor, compare_cursor}
use code_code_platform_catal.Store.Listing.Laws.{compare_cursor-IsComparator}
use code_code_platform_catal.Store.Listing.Rows.{IsReadable, item}
use code_code_platform_catal.Store.Listing.Follow.{follow, follow_all}
use code_code_platform_catal.Store.Query.{JsonColumns, search_keeps}
use code_code_platform_catal.Store.Query.Laws.{some_contains, searched_texts, search_keeps-contains}
use code_code_platform_catal.Tests.Registry.{context, definition}

abbrev moved : Text → Text
moved t = map (λ c. c + 200) t

abbrev back : Text → Text
back t = map (λ c. c - 200) t

abbrev split_continue : Text → Option ContinueToken
split_continue [] = none
split_continue (n ∷ t) = some (record { vendor_id = take n t; model_id = drop n t })

abbrev split_page : Text → Option PageToken
split_page [] = none
split_page (n ∷ t) = some (record { continue_token = t; offset = n })

abbrev codec : TokenCodec
codec = record {
  encode_bytes = moved;
  decode_bytes = λ t. some (back t);
  marshal_page = λ t. some (t.offset ∷ t.continue_token);
  unmarshal_page = split_page;
  marshal_continue = λ t. some (length t.vendor_id ∷ t.vendor_id ++ t.model_id);
  unmarshal_continue = split_continue;
}

back-moved : (t : Text) → back (moved t) ≡ t
back-moved [] = refl
back-moved (c ∷ t) = ground (arith, back-moved t)

moved-StartsClean : (t : Text) → StartsClean is_space (moved t)
unfolding is_space
moved-StartsClean [] = tt
moved-StartsClean (c ∷ t) = ground arith

moved-EndsClean : (t : Text) → EndsClean is_space (moved t)
unfolding is_space
moved-EndsClean [] = tt
moved-EndsClean (c ∷ []) = ground arith
moved-EndsClean (c ∷ d ∷ t) = moved-EndsClean (d ∷ t)

moved_not_empty : (t : Text) → is_empty (moved t) ≡ is_empty t
moved_not_empty [] = refl
moved_not_empty (c ∷ t) = refl

codec-IsTokenCodec : IsTokenCodec codec
codec-IsTokenCodec = record {
  bytes = λ t. ap some (back-moved t);
  clean = λ t. trim_of_clean is_space (moved t) (moved-StartsClean t) (moved-EndsClean t);
  not_empty = moved_not_empty;
  page = λ t. (t.offset ∷ t.continue_token, refl, refl, refl);
  continue_json = λ t. (
    length t.vendor_id ∷ t.vendor_id ++ t.model_id,
    refl,
    rw (take-append_left t.vendor_id t.model_id, drop-append_left t.vendor_id t.model_id) refl,
    refl,
  );
}

-- The token of a page of three entries.
decode_definition_list_page_token-encode_example :
    decode_definition_list_page_token codec
      (encode_definition_list_page_token codec (codes " c ") 3)
    ≡ (codes "c", 3)
unfolding code_code_platform_catal.Store.Tokens.clamp code_code_platform_catal.Text.trim is_space
decode_definition_list_page_token-encode_example =
    decode_definition_list_page_token-encode codec codec-IsTokenCodec (codes " c ") 3

abbrev row : Text → EntryRow
row model = record {
  at = record { namespace = codes "code"; vendor_id = codes "o"; model_id = model };
  definition = codes "{}";
  badges = codes "[]";
  pricing = codes "null";
  generation = 1;
}

abbrev three : Tables
three = record {
  entries = row (codes "x") ∷ row (codes "z") ∷ row (codes "y") ∷ [];
  aliases = [];
  observations = [];
  outbox = [];
}

abbrev base : EntryRow → RegistryEntry
base _ = record { definition = some definition; badges = []; pricing = none; sources = [] }

abbrev no_sources : EntryRow → List RegistrySource
no_sources _ = []

abbrev all_rows : EntryRow → Bool
all_rows _ = true

three_rows :
    listed_rows context codec all_rows three
    ≡ row (codes "x") ∷ row (codes "y") ∷ row (codes "z") ∷ []
unfolding listed_rows code_code_platform_catal.Prelude.sort_by keep
    code_code_platform_catal.Prelude.list_beq compare_cursor compare_text
three_rows = refl

x-IsReadable : IsReadable context three base no_sources (row (codes "x"))
unfolding code_code_platform_catal.Text.trim is_space
    code_code_platform_catal.Store.Scan.scan_registry_entry_base
    code_code_platform_catal.Models.Definition.new_surface_identity
    code_code_platform_catal.Store.Json.decode_model_definition
    code_code_platform_catal.Prelude.list_beq
    code_code_platform_catal.Store.Json.decode_string_slice
    code_code_platform_catal.Store.Json.decode_pricing
    code_code_platform_catal.Models.Badges.normalize_definition_source_badges
    code_code_platform_catal.Prelude.sort_by code_code_platform_catal.Prelude.collect_distinct
    code_code_platform_catal.Store.Scan.list_entry_sources
    code_code_platform_catal.Store.Tables.is_storable_key
    code_code_platform_catal.Store.Tables.is_storable code_code_platform_catal.Store.Write.at
    code_code_platform_catal.Store.Scan.scan_sources keep
    code_code_platform_catal.ModelIdentity.Slug.collapse_dashes
    code_code_platform_catal.ModelIdentity.Slug.normalized_vendor_slug
    code_code_platform_catal.ModelIdentity.Slug.replace_dashes
    code_code_platform_catal.ModelIdentity.Slug.vendor_separator
    code_code_platform_catal.Models.Badges.normalize_definition_source_badge
    code_code_platform_catal.Models.Badges.source_badges
    code_code_platform_catal.Models.Pricing.is_blank_pricing
    code_code_platform_catal.Models.Pricing.normalize_pricing_summary
    code_code_platform_catal.Models.Pricing.trimmed_pricing
    code_code_platform_catal.Models.Registry.normalize_registry_model_source
    code_code_platform_catal.Prelude.collect_from code_code_platform_catal.Prelude.contains
    code_code_platform_catal.Prelude.push_distinct code_code_platform_catal.Prelude.insert_by
    code_code_platform_catal.Store.Codec.registry_model_source_kind_from_db_string
    code_code_platform_catal.Store.Scan.compare_observation
    code_code_platform_catal.Store.Scan.scan_source
    code_code_platform_catal.Store.Tables.same_row_key code_code_platform_catal.Text.is_upper
    code_code_platform_catal.Text.lower_byte compare_text code_code_platform_catal.Text.trim_left
    code_code_platform_catal.Text.trim_right code_code_platform_catal.Text.contains_text
    code_code_platform_catal.Text.has_prefix
x-IsReadable = record {
  vendor = refl;
  vendor_named = refl;
  model = refl;
  model_named = refl;
  scanned = refl;
  read = refl;
}

y-IsReadable : IsReadable context three base no_sources (row (codes "y"))
unfolding code_code_platform_catal.Text.trim is_space
    code_code_platform_catal.Store.Scan.scan_registry_entry_base
    code_code_platform_catal.Models.Definition.new_surface_identity
    code_code_platform_catal.Store.Json.decode_model_definition
    code_code_platform_catal.Prelude.list_beq
    code_code_platform_catal.Store.Json.decode_string_slice
    code_code_platform_catal.Store.Json.decode_pricing
    code_code_platform_catal.Models.Badges.normalize_definition_source_badges
    code_code_platform_catal.Prelude.sort_by code_code_platform_catal.Prelude.collect_distinct
    code_code_platform_catal.Store.Scan.list_entry_sources
    code_code_platform_catal.Store.Tables.is_storable_key
    code_code_platform_catal.Store.Tables.is_storable code_code_platform_catal.Store.Write.at
    code_code_platform_catal.Store.Scan.scan_sources keep
    code_code_platform_catal.ModelIdentity.Slug.collapse_dashes
    code_code_platform_catal.ModelIdentity.Slug.normalized_vendor_slug
    code_code_platform_catal.ModelIdentity.Slug.replace_dashes
    code_code_platform_catal.ModelIdentity.Slug.vendor_separator
    code_code_platform_catal.Models.Badges.normalize_definition_source_badge
    code_code_platform_catal.Models.Badges.source_badges
    code_code_platform_catal.Models.Pricing.is_blank_pricing
    code_code_platform_catal.Models.Pricing.normalize_pricing_summary
    code_code_platform_catal.Models.Pricing.trimmed_pricing
    code_code_platform_catal.Models.Registry.normalize_registry_model_source
    code_code_platform_catal.Prelude.collect_from code_code_platform_catal.Prelude.contains
    code_code_platform_catal.Prelude.push_distinct code_code_platform_catal.Prelude.insert_by
    code_code_platform_catal.Store.Codec.registry_model_source_kind_from_db_string
    code_code_platform_catal.Store.Scan.compare_observation
    code_code_platform_catal.Store.Scan.scan_source
    code_code_platform_catal.Store.Tables.same_row_key code_code_platform_catal.Text.is_upper
    code_code_platform_catal.Text.lower_byte compare_text code_code_platform_catal.Text.trim_left
    code_code_platform_catal.Text.trim_right code_code_platform_catal.Text.contains_text
    code_code_platform_catal.Text.has_prefix
y-IsReadable = record {
  vendor = refl;
  vendor_named = refl;
  model = refl;
  model_named = refl;
  scanned = refl;
  read = refl;
}

z-IsReadable : IsReadable context three base no_sources (row (codes "z"))
unfolding code_code_platform_catal.Text.trim is_space
    code_code_platform_catal.Store.Scan.scan_registry_entry_base
    code_code_platform_catal.Models.Definition.new_surface_identity
    code_code_platform_catal.Store.Json.decode_model_definition
    code_code_platform_catal.Prelude.list_beq
    code_code_platform_catal.Store.Json.decode_string_slice
    code_code_platform_catal.Store.Json.decode_pricing
    code_code_platform_catal.Models.Badges.normalize_definition_source_badges
    code_code_platform_catal.Prelude.sort_by code_code_platform_catal.Prelude.collect_distinct
    code_code_platform_catal.Store.Scan.list_entry_sources
    code_code_platform_catal.Store.Tables.is_storable_key
    code_code_platform_catal.Store.Tables.is_storable code_code_platform_catal.Store.Write.at
    code_code_platform_catal.Store.Scan.scan_sources keep
    code_code_platform_catal.ModelIdentity.Slug.collapse_dashes
    code_code_platform_catal.ModelIdentity.Slug.normalized_vendor_slug
    code_code_platform_catal.ModelIdentity.Slug.replace_dashes
    code_code_platform_catal.ModelIdentity.Slug.vendor_separator
    code_code_platform_catal.Models.Badges.normalize_definition_source_badge
    code_code_platform_catal.Models.Badges.source_badges
    code_code_platform_catal.Models.Pricing.is_blank_pricing
    code_code_platform_catal.Models.Pricing.normalize_pricing_summary
    code_code_platform_catal.Models.Pricing.trimmed_pricing
    code_code_platform_catal.Models.Registry.normalize_registry_model_source
    code_code_platform_catal.Prelude.collect_from code_code_platform_catal.Prelude.contains
    code_code_platform_catal.Prelude.push_distinct code_code_platform_catal.Prelude.insert_by
    code_code_platform_catal.Store.Codec.registry_model_source_kind_from_db_string
    code_code_platform_catal.Store.Scan.compare_observation
    code_code_platform_catal.Store.Scan.scan_source
    code_code_platform_catal.Store.Tables.same_row_key code_code_platform_catal.Text.is_upper
    code_code_platform_catal.Text.lower_byte compare_text code_code_platform_catal.Text.trim_left
    code_code_platform_catal.Text.trim_right code_code_platform_catal.Text.contains_text
    code_code_platform_catal.Text.has_prefix
z-IsReadable = record {
  vendor = refl;
  vendor_named = refl;
  model = refl;
  model_named = refl;
  scanned = refl;
  read = refl;
}

three-IsReadable :
    All (IsReadable context three base no_sources) (listed_rows context codec all_rows three)
three-IsReadable = rw three_rows (x-IsReadable, (y-IsReadable, (z-IsReadable, tt)))

three-DistinctKeys :
    DistinctKeys cursor
      (compare_cursor compare_text)
      (compare_cursor-IsComparator compare_text compare_text-IsComparator)
      (keep (λ r. r.at.namespace == context.namespace && all_rows r) three.entries)
unfolding keep code_code_platform_catal.Prelude.list_beq
three-DistinctKeys = (
  (
    (λ e. absurd (ground (arith, ap (λ (c : ContinueToken). c.model_id) e))),
    ((λ e. absurd (ground (arith, ap (λ (c : ContinueToken). c.model_id) e))), tt),
  ),
  (((λ e. absurd (ground (arith, ap (λ (c : ContinueToken). c.model_id) e))), tt), (tt, tt)),
)

-- Pages of one entry.
follow_all_example :
    follow context codec all_rows 4 1 [] three
    ≡ some (map (item base no_sources) (row (codes "x") ∷ row (codes "y") ∷ row (codes "z") ∷ []))
unfolding listed_rows follow code_code_platform_catal.Prelude.sort_by
    code_code_platform_catal.Store.Listing.list keep
    code_code_platform_catal.Store.Listing.list_page code_code_platform_catal.Prelude.list_beq
    code_code_platform_catal.Store.Listing.scan_rows compare_cursor
    code_code_platform_catal.Store.Listing.skip_rows compare_text
follow_all_example =
    follow_all context codec all_rows three base no_sources codec-IsTokenCodec
      compare_text-IsComparator 1 refl three-DistinctKeys three-IsReadable

abbrev no_columns : JsonColumns
no_columns = record { text_of = λ _ _. codes "100% X"; holds_all = λ _ _. true }

search_keeps-contains_example :
    search_keeps context no_columns three (codes " 0% ") (row (codes "x"))
    ≡ some_contains (codes "0%") (searched_texts context no_columns three (row (codes "x")))
unfolding code_code_platform_catal.Text.trim is_space code_code_platform_catal.Text.lower_byte
search_keeps-contains_example =
    search_keeps-contains context no_columns three (codes " 0% ") (row (codes "x")) refl
