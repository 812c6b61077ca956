-- ===== src/Store/Tokens/Laws.antt =====
-- models/store/list_pagination.go: the encoding and decoding of page tokens.
use code_code_platform_catal.Prelude.{
  ℕ, ◌≡◌, refl, ap, ◌∙◌, true, false, ◌||◌, [], none, some, arith, inl, inr, Bool-cases,
  if◌then◌else◌,
}
use code_code_platform_catal.Text.{
  Text, is_empty, is_space, trim_space, trim_idem, trim, trim_left, trim_right,
}
use code_code_platform_catal.Store.Tokens.{
  PageToken, ContinueToken, TokenCodec, clamp, decode_page_payload,
  decode_definition_list_page_token, encode_definition_list_page_token,
  encode_definition_list_continue_token, decode_continue_payload,
  decode_definition_list_continue_token,
}

-- What the libraries promise: base64 is read back, has no white space and is empty for no bytes
-- only; the JSON of a token exists, is not empty and is read back.
pub record IsTokenCodec (codec : TokenCodec) : Type 0 where
  pub bytes : (t : Text) → codec.decode_bytes (codec.encode_bytes t) ≡ some t
  pub clean : (t : Text) → trim_space (codec.encode_bytes t) ≡ codec.encode_bytes t
  pub not_empty : (t : Text) → is_empty (codec.encode_bytes t) ≡ is_empty t
  pub page :
      (t : PageToken)
      → (raw : Text) × (codec.marshal_page t ≡ some raw)
        × (codec.unmarshal_page raw ≡ some t)
        × (is_empty raw ≡ false)
  pub continue_json :
      (t : ContinueToken)
      → (raw : Text) × (codec.marshal_continue t ≡ some raw)
        × (codec.unmarshal_continue raw ≡ some t)
        × (is_empty raw ≡ false)

clamp_idem : (o : ℕ) → clamp (clamp o) ≡ clamp o
unfolding clamp
clamp_idem o = ground arith

module _ (codec : TokenCodec) (law : IsTokenCodec codec) where
  page_read :
      (t : PageToken) (raw : Text)
      → codec.unmarshal_page raw ≡ some t
      → is_empty raw ≡ false
      → decode_definition_list_page_token codec (codec.encode_bytes raw)
        ≡ (trim_space t.continue_token, clamp t.offset)
  unfolding decode_definition_list_page_token decode_page_payload
  page_read t raw back some_bytes =
      rw (law.clean raw, law.not_empty raw, some_bytes, law.bytes raw, back) refl

  continue_read :
      (t : ContinueToken) (raw : Text)
      → codec.unmarshal_continue raw ≡ some t
      → is_empty raw ≡ false
      → decode_definition_list_continue_token codec (codec.encode_bytes raw)
        ≡ decode_continue_payload codec (some t)
  unfolding decode_definition_list_continue_token
  continue_read t raw back some_bytes =
      rw (law.clean raw, law.not_empty raw, some_bytes, law.bytes raw, back) refl

  page_written :
      (text raw : Text) (offset : ℕ)
      → is_empty (trim_space text) ≡ false
      → codec.marshal_page (record { continue_token = trim_space text; offset = clamp offset })
        ≡ some raw
      → encode_definition_list_page_token codec text offset ≡ codec.encode_bytes raw
  unfolding encode_definition_list_page_token
  page_written text raw offset named written = rw (named, written) refl

  blank_page :
      (text : Text) (offset : ℕ)
      → is_empty (trim_space text) ≡ true
      → encode_definition_list_page_token codec text offset ≡ []
  unfolding encode_definition_list_page_token
  blank_page text offset blank = rw blank refl

  pub page_start : decode_definition_list_page_token codec [] ≡ ([], 0)
  unfolding decode_definition_list_page_token trim trim_left trim_right
  page_start = refl

  pub continue_start : decode_definition_list_continue_token codec [] ≡ none
  unfolding decode_definition_list_continue_token trim trim_left trim_right
  continue_start = refl

  -- A page token gives back its continue token, trimmed, and its offset, zero for a negative one; a
  -- blank continue token gives no page token, which is read as the start.
  pub decode_definition_list_page_token-encode :
      (text : Text) (offset : ℕ)
      → decode_definition_list_page_token codec
          (encode_definition_list_page_token codec text offset)
        ≡ (trim_space text, if is_empty (trim_space text) then 0 else clamp offset)
  decode_definition_list_page_token-encode text offset =
      elim (Bool-cases (is_empty (trim_space text))) [
        | inl blank ↦
            ap (decode_definition_list_page_token codec) (blank_page text offset blank)
            ∙ page_start
            ∙ ground (arith, blank)
        | inr named ↦
            let t : PageToken = record {
              continue_token = trim_space text;
              offset = clamp offset;
            } in
            let (raw, written, back, some_bytes) = law.page t in
            ap (decode_definition_list_page_token codec)
              (page_written text raw offset named written)
            ∙ page_read t raw back some_bytes
            ∙ rw (trim_idem is_space text, clamp_idem offset, named) refl
      ]

  continue_written :
      (v m raw : Text)
      → (is_empty (trim_space v) || is_empty (trim_space m)) ≡ false
      → codec.marshal_continue (record { vendor_id = trim_space v; model_id = trim_space m })
        ≡ some raw
      → encode_definition_list_continue_token codec v m ≡ codec.encode_bytes raw
  unfolding encode_definition_list_continue_token
  continue_written v m raw named written = rw (named, written) refl

  blank_continue :
      (v m : Text)
      → (is_empty (trim_space v) || is_empty (trim_space m)) ≡ true
      → encode_definition_list_continue_token codec v m ≡ []
  unfolding encode_definition_list_continue_token
  blank_continue v m blank = rw blank refl

  pub decode_definition_list_continue_token-encode :
      (v m : Text)
      → decode_definition_list_continue_token codec
          (encode_definition_list_continue_token codec v m)
        ≡ (if is_empty (trim_space v) || is_empty (trim_space m)
            then none
            else some (record { vendor_id = trim_space v; model_id = trim_space m }))
  unfolding decode_continue_payload
  decode_definition_list_continue_token-encode v m =
      elim (Bool-cases (is_empty (trim_space v) || is_empty (trim_space m))) [
        | inl blank ↦
            ap (decode_definition_list_continue_token codec) (blank_continue v m blank)
            ∙ continue_start
            ∙ rw blank refl
        | inr named ↦
            let t : ContinueToken = record { vendor_id = trim_space v; model_id = trim_space m } in
            let (raw, written, back, some_bytes) = law.continue_json t in
            ap (decode_definition_list_continue_token codec)
              (continue_written v m raw named written)
            ∙ continue_read t raw back some_bytes
            ∙ rw (trim_idem is_space v, trim_idem is_space m, named) refl
      ]

  -- White space around a continue token is ignored.
  pub decode_definition_list_continue_token_trim :
      (t : Text)
      → decode_definition_list_continue_token codec (trim_space t)
        ≡ decode_definition_list_continue_token codec t
  unfolding decode_definition_list_continue_token
  decode_definition_list_continue_token_trim t = rw (trim_idem is_space t) refl
