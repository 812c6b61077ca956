-- ===== src/Models/Types.antt =====
-- The contract's messages, with the fields that the package `models` reads or writes. An enum is
-- its number, and zero is its unspecified value; a pointer that may be nil is an `Option`. An int32
-- is its bit pattern, a number below 2 ^ 32.
use Prim.Native.Nat.{◌^◌, ◌%◌}
use code_code_platform_catal.Prelude.{ℕ, ◌+◌, ◌-◌, Bool, List, Option, ltb, ◌&&◌}
use code_code_platform_catal.Text.{Text}
use code_code_platform_catal.ModelIdentity.Candidates.{ModelAlias}

-- `modelv1.ContextSpec`.
pub record ContextSpec : Type 0 where
  pub max_context_tokens : ℕ
  pub max_output_tokens : ℕ

-- `modelv1.ModelVersion`.
pub record ModelVersion : Type 0 where
  pub vendor_id : Text
  pub model_id : Text
  pub display_name : Text
  pub primary_shape : ℕ
  pub supported_shapes : List ℕ
  pub capabilities : List ℕ
  pub input_modalities : List ℕ
  pub output_modalities : List ℕ
  pub context_spec : Option ContextSpec
  pub aliases : List (Option ModelAlias)

-- `modelservicev1.PricingSummary`.
pub record PricingSummary : Type 0 where
  pub input : Text
  pub output : Text
  pub cache_read_input : Text
  pub cache_write_input : Text
  pub reasoning : Text
  pub image_input : Text
  pub audio_input : Text
  pub audio_output : Text
  pub request : Text
  pub currency : Text
  pub price_type : ℕ

-- `modelservicev1.CollectedModelSource`.
pub record CollectedSource : Type 0 where
  pub vendor_id : Text
  pub model_id : Text
  pub source_id : Text
  pub source_model_id : Text
  pub display_name : Text
  pub kind : ℕ
  pub is_direct : Bool
  pub authority_priority : ℕ
  pub definition : Option ModelVersion
  pub badges : List Text
  pub pricing : Option PricingSummary

-- `modelservicev1.CollectedModelEntry`.
pub record CollectedEntry : Type 0 where
  pub definition : Option ModelVersion
  pub badges : List Text
  pub pricing : Option PricingSummary
  pub sources : List (Option CollectedSource)

-- An int32 is positive.
abbrev pub is_positive : ℕ → Bool
is_positive a = ltb 0 a && ltb a (2 ^ 31)

-- `a > b` on int32 values.
abbrev pub int32_gtb : ℕ → ℕ → Bool
int32_gtb a b = ltb ((b + 2 ^ 31) % 2 ^ 32) ((a + 2 ^ 31) % 2 ^ 32)

-- `a - b` on int32 values, which wraps around.
abbrev pub int32_sub : ℕ → ℕ → ℕ
int32_sub a b = (a + 2 ^ 32 - b) % 2 ^ 32
