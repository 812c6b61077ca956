-- ===== src/Store/Tokens.antt =====
-- models/store/list_pagination.go: the tokens of a listing. Base64 and JSON are parameters.
pub mod Laws
use Prim.Native.Nat.{◌^◌}
use code_code_platform_catal.Prelude.{
  ℕ, Bool, true, false, ◌||◌, List, [], Option, none, some, if◌then◌else◌, leb,
}
use code_code_platform_catal.Text.{Text, is_empty, trim_space}

-- `definitionListPageToken`; the offset is the bit pattern of an int64.
pub record PageToken : Type 0 where
  pub continue_token : Text
  pub offset : ℕ

-- `definitionListContinueToken`.
pub record ContinueToken : Type 0 where
  pub vendor_id : Text
  pub model_id : Text

-- `base64.RawURLEncoding` and `json` on the two tokens.
pub record TokenCodec : Type 0 where
  pub encode_bytes : Text → Text
  pub decode_bytes : Text → Option Text
  pub marshal_page : PageToken → Option Text
  pub unmarshal_page : Text → Option PageToken
  pub marshal_continue : ContinueToken → Option Text
  pub unmarshal_continue : Text → Option ContinueToken

-- A negative int64 becomes zero.
unfoldable pub clamp : ℕ → ℕ
clamp offset = if leb (2 ^ 63) offset then 0 else offset

module _ (codec : TokenCodec) where
  -- The second match is on the outcome of `Unmarshal`.
  unfoldable pub decode_page_payload : Text → Option PageToken → Text × ℕ
  decode_page_payload raw none = (raw, 0)
  decode_page_payload raw (some token) = (trim_space token.continue_token, clamp token.offset)

  unfoldable pub decode_definition_list_page_token : Text → Text × ℕ
  decode_definition_list_page_token text =
      let raw = trim_space text in
      if is_empty raw then ([], 0) else elim (codec.decode_bytes raw) [
        | none ↦ (raw, 0)
        | some payload ↦ decode_page_payload raw (codec.unmarshal_page payload)
      ]

  unfoldable pub encode_definition_list_page_token : Text → ℕ → Text
  encode_definition_list_page_token text offset =
      let continue_token = trim_space text in
      if is_empty continue_token
      then []
      else elim (codec.marshal_page
          (record { continue_token = continue_token; offset = clamp offset })) [
            | none ↦ continue_token
            | some payload ↦ codec.encode_bytes payload
          ]

  unfoldable pub encode_definition_list_continue_token : Text → Text → Text
  encode_definition_list_continue_token vendor model =
      let vendor_id = trim_space vendor in
      let model_id = trim_space model in
      if is_empty vendor_id || is_empty model_id
      then []
      else elim (codec.marshal_continue (record { vendor_id = vendor_id; model_id = model_id })) [
        | none ↦ []
        | some payload ↦ codec.encode_bytes payload
      ]

  unfoldable pub decode_continue_payload : Option ContinueToken → Option ContinueToken
  decode_continue_payload none = none
  decode_continue_payload (some token) =
      let vendor_id = trim_space token.vendor_id in
      let model_id = trim_space token.model_id in
      if is_empty vendor_id || is_empty model_id
      then none
      else some (record { vendor_id = vendor_id; model_id = model_id })

  unfoldable pub decode_definition_list_continue_token : Text → Option ContinueToken
  decode_definition_list_continue_token text =
      let raw = trim_space text in
      if is_empty raw then none else elim (codec.decode_bytes raw) [
        | none ↦ none
        | some payload ↦ decode_continue_payload (codec.unmarshal_continue payload)
      ]
