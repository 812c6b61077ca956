-- ===== src/Store/Listing/Told.antt =====
-- models/store/list_pagination.go: the columns of a row in its page token.
use code_code_platform_catal.Prelude.{ℕ, ◌≡◌, refl, sym, ap, ◌∙◌, false, List, [], ◌∷◌, some}
use code_code_platform_catal.Text.{Text, text_eq, is_empty, trim_space}
use code_code_platform_catal.Models.Registry.{RegistryEntry, RegistrySource}
use code_code_platform_catal.Store.Tables.{EntryRow, Tables}
use code_code_platform_catal.Store.Write.{Context}
use code_code_platform_catal.Store.Tokens.{
  TokenCodec, ContinueToken, decode_definition_list_page_token, encode_definition_list_page_token,
  decode_definition_list_continue_token, encode_definition_list_continue_token,
}
use code_code_platform_catal.Store.Tokens.Laws.{
  IsTokenCodec, decode_definition_list_page_token-encode,
  decode_definition_list_continue_token-encode, decode_definition_list_continue_token_trim,
  page_start, continue_start,
}
use code_code_platform_catal.Store.Listing.{cursor}
use code_code_platform_catal.Store.Registry.Upsert.{none_not_some}
use code_code_platform_catal.Store.Listing.Rows.{IsReadable}

module _ (context : Context Tables) (codec : TokenCodec) (tables : Tables)
    (base : EntryRow → RegistryEntry) (sources : EntryRow → List RegistrySource)
    (law : IsTokenCodec codec) where
  continue_of :
      (x : EntryRow)
      → IsReadable context tables base sources x
      → decode_definition_list_continue_token codec
          (trim_space (encode_definition_list_continue_token codec x.at.vendor_id x.at.model_id))
        ≡ some (cursor x)
  continue_of x r =
      decode_definition_list_continue_token_trim codec law
        (encode_definition_list_continue_token codec x.at.vendor_id x.at.model_id)
      ∙ decode_definition_list_continue_token-encode codec law x.at.vendor_id x.at.model_id
      ∙ rw (r.vendor, r.model, r.vendor_named, r.model_named) refl

  told_not_empty :
      (token : Text) (y : ContinueToken)
      → decode_definition_list_continue_token codec
          (decode_definition_list_page_token codec token).0
        ≡ some y
      → is_empty token ≡ false
  told_not_empty [] y e = absurd (
      none_not_some y (
        sym (continue_start codec law)
        ∙ ap (λ (p : Text × ℕ). decode_definition_list_continue_token codec p.0)
            (sym (page_start codec law))
        ∙ e))
  told_not_empty (_ ∷ _) y e = refl

  -- The token of a row is read as the row's columns, and there is one.
  pub token_of :
      (x : EntryRow) (offset : ℕ)
      → IsReadable context tables base sources x
      → let token =
          encode_definition_list_page_token codec
            (encode_definition_list_continue_token codec x.at.vendor_id x.at.model_id)
            offset in
        (is_empty token ≡ false)
        × (decode_definition_list_continue_token codec
              (decode_definition_list_page_token codec token).0
            ≡ some (cursor x))
  token_of x offset r =
      let c = encode_definition_list_continue_token codec x.at.vendor_id x.at.model_id in
      let token = encode_definition_list_page_token codec c offset in
      let read =
        ap (λ (p : Text × ℕ). p.0) (decode_definition_list_page_token-encode codec law c offset) in
      let told : decode_definition_list_continue_token codec
            (decode_definition_list_page_token codec token).0
          ≡ some (cursor x) =
        ap (decode_definition_list_continue_token codec) read ∙ continue_of x r in
      (told_not_empty token (cursor x) told, told)
