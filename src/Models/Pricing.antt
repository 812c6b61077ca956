-- ===== src/Models/Pricing.antt =====
-- source_model_badges.go, lines 67 to 127: the pricing of a model. A clone of a message is the
-- message, as records are values.
pub mod Laws
use code_code_platform_catal.Prelude.{
  ℕ, Bool, ◌&&◌, Option, none, some, if◌then◌else◌, ◌==◌, nat_eq,
}
use code_code_platform_catal.Text.{Text, is_empty, trim_space}
use code_code_platform_catal.Models.Types.{PricingSummary}

-- The literal `normalized`.
unfoldable pub trimmed_pricing : PricingSummary → PricingSummary
trimmed_pricing p = record {
  input = trim_space p.input;
  output = trim_space p.output;
  cache_read_input = trim_space p.cache_read_input;
  cache_write_input = trim_space p.cache_write_input;
  reasoning = trim_space p.reasoning;
  image_input = trim_space p.image_input;
  audio_input = trim_space p.audio_input;
  audio_output = trim_space p.audio_output;
  request = trim_space p.request;
  currency = trim_space p.currency;
  price_type = p.price_type;
}

-- No amount is given.
unfoldable pub is_blank_pricing : PricingSummary → Bool
is_blank_pricing p =
    is_empty p.input
    && is_empty p.output
    && is_empty p.cache_read_input
    && is_empty p.cache_write_input
    && is_empty p.reasoning
    && is_empty p.image_input
    && is_empty p.audio_input
    && is_empty p.audio_output
    && is_empty p.request

unfoldable pub normalize_pricing_summary : Option PricingSummary → Option PricingSummary
normalize_pricing_summary none = none
normalize_pricing_summary (some p) =
    let normalized = trimmed_pricing p in
    if is_blank_pricing normalized then none else some normalized

unfoldable pub clone_pricing_summary : Option PricingSummary → Option PricingSummary
clone_pricing_summary pricing = normalize_pricing_summary pricing

-- The closure `fillEmpty`.
unfoldable pub fill_empty : Text → Text → Text
fill_empty dst src = if is_empty dst then src else dst

unfoldable pub fill_price_type : ℕ → ℕ → ℕ
fill_price_type dst src = if dst == 0 then src else dst

unfoldable pub fill_pricing : PricingSummary → PricingSummary → PricingSummary
fill_pricing p f = record {
  input = fill_empty p.input f.input;
  output = fill_empty p.output f.output;
  cache_read_input = fill_empty p.cache_read_input f.cache_read_input;
  cache_write_input = fill_empty p.cache_write_input f.cache_write_input;
  reasoning = fill_empty p.reasoning f.reasoning;
  image_input = fill_empty p.image_input f.image_input;
  audio_input = fill_empty p.audio_input f.audio_input;
  audio_output = fill_empty p.audio_output f.audio_output;
  request = fill_empty p.request f.request;
  currency = fill_empty p.currency f.currency;
  price_type = fill_price_type p.price_type f.price_type;
}

-- The steps of `MergePricingSummary` after the two arguments are normalized.
unfoldable pub merge_normalized :
    Option PricingSummary → Option PricingSummary → Option PricingSummary
merge_normalized none fallback = clone_pricing_summary fallback
merge_normalized (some p) none = some p
merge_normalized (some p) (some f) = normalize_pricing_summary (some (fill_pricing p f))

unfoldable pub merge_pricing_summary :
    Option PricingSummary → Option PricingSummary → Option PricingSummary
merge_pricing_summary primary fallback =
    merge_normalized (clone_pricing_summary primary) (normalize_pricing_summary fallback)
