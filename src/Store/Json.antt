-- ===== src/Store/Json.antt =====
-- The encodings of store/codec.go. The JSON of the libraries is a parameter.
use code_code_platform_catal.Prelude.{Bool, ◌||◌, List, [], Option, none, some, ◌==◌, if◌then◌else◌}
use code_code_platform_catal.Text.{Text, codes, text_eq, is_empty}
use code_code_platform_catal.Models.Types.{ModelVersion, PricingSummary}
use code_code_platform_catal.Models.Badges.{normalize_definition_source_badges}
use code_code_platform_catal.Models.Pricing.{normalize_pricing_summary}

-- What the library does on the messages of the store.
pub record Json : Type 0 where
  pub marshal_definition : ModelVersion → Option Text
  pub unmarshal_definition : Text → Option ModelVersion
  pub marshal_strings : List Text → Option Text
  pub unmarshal_strings : Text → Option (List Text)
  pub marshal_pricing : PricingSummary → Option Text
  pub unmarshal_pricing : Text → Option PricingSummary

-- `&modelv1.ModelVersion{}`.
abbrev pub empty_definition : ModelVersion
empty_definition = record {
  vendor_id = [];
  model_id = [];
  display_name = [];
  primary_shape = 0;
  supported_shapes = [];
  capabilities = [];
  input_modalities = [];
  output_modalities = [];
  context_spec = none;
  aliases = [];
}

-- A column without a value.
abbrev pub is_null : Text → Bool
is_null raw = is_empty raw || raw == codes "null"

module _ (json : Json) where
  unfoldable pub encode_model_definition : Option ModelVersion → Option Text
  encode_model_definition none = some (codes "null")
  encode_model_definition (some definition) = json.marshal_definition definition

  unfoldable pub decode_model_definition : Text → Option ModelVersion
  decode_model_definition raw =
      if is_null raw then some empty_definition else json.unmarshal_definition raw

  unfoldable pub encode_string_slice : List Text → Option Text
  encode_string_slice values = json.marshal_strings (normalize_definition_source_badges values)

  -- A nil slice and an empty one are the same list.
  unfoldable pub decode_string_slice : Text → Option (List Text)
  decode_string_slice raw = if is_null raw then some [] else elim (json.unmarshal_strings raw) [
    | none ↦ none
    | some values ↦ some (normalize_definition_source_badges values)
  ]

  unfoldable pub encode_pricing : Option PricingSummary → Option Text
  encode_pricing pricing = elim (normalize_pricing_summary pricing) [
    | none ↦ some (codes "null")
    | some summary ↦ json.marshal_pricing summary
  ]

  unfoldable pub decode_pricing : Text → Option (Option PricingSummary)
  decode_pricing raw = if is_null raw then some none else elim (json.unmarshal_pricing raw) [
    | none ↦ none
    | some summary ↦ some (normalize_pricing_summary (some summary))
  ]
