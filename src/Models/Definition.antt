-- ===== src/Models/Definition.antt =====
-- definition_merge.go, definition_helpers.go, entry_defaults.go and identity.go: the definition of a
-- model, how the gaps of one are filled from another, and its identity.
pub mod Aliases
pub mod Identity
pub mod Laws
use code_code_platform_catal.Prelude.{
  ℕ, Bool, true, false, not, ◌&&◌, ◌≡◌, ◌↔◌, List, [], ◌∷◌, ◌++◌, Option, none, some, Ordering,
  compare, if◌then◌else◌, ◌==◌, Eq, nat_eq, contains, collect_distinct, sort_by, arith, eq_iff,
}
use code_code_platform_catal.Text.{Text, text_eq, is_empty, trim_space, compare_text}
use code_code_platform_catal.ModelIdentity.Candidates.{ModelAlias}
use code_code_platform_catal.Models.Types.{ContextSpec, ModelVersion}

unfoldable pub alias_beq : ModelAlias → ModelAlias → Bool
alias_beq a b = a.kind == b.kind && a.value == b.value

pub alias_beq_iff : (a b : ModelAlias) → (alias_beq a b ≡ true) ↔ (a ≡ b)
unfolding alias_beq
alias_beq_iff a b = ground (arith, eq_iff a.kind b.kind, eq_iff a.value b.value)

-- The loop's keys: an alias by its kind and its value.
instance abbrev pub alias_eq : Eq ModelAlias
alias_eq = record { same = alias_beq; same_iff = alias_beq_iff }

-- An alias as the closure `appendAlias` takes it: nil and blank values are skipped.
unfoldable pub merged_alias : Option ModelAlias → Option ModelAlias
merged_alias none = none
merged_alias (some alias) =
    let value = trim_space alias.value in
    if is_empty value then none else some (record { kind = alias.kind; value = value })

-- The comparator of `slices.SortFunc`.
unfoldable pub compare_alias : ModelAlias → ModelAlias → Ordering
compare_alias left right = elim (compare left.kind right.kind) [
  | Ordering.lt ↦ Ordering.lt
  | Ordering.eq ↦ compare_text left.value right.value
  | Ordering.gt ↦ Ordering.gt
]

unfoldable pub sorted_aliases : List (Option ModelAlias) → List ModelAlias
sorted_aliases aliases = sort_by compare_alias (collect_distinct merged_alias aliases)

abbrev pub some_aliases : List ModelAlias → List (Option ModelAlias)
some_aliases [] = []
some_aliases (a ∷ aliases) = some a ∷ some_aliases aliases

unfoldable pub merge_definition_aliases :
    List (Option ModelAlias) → List (Option ModelAlias) → List (Option ModelAlias)
merge_definition_aliases left right = some_aliases (sorted_aliases (left ++ right))

-- The getters of a message answer zero for a nil context.
unfoldable pub max_context_tokens_of : Option ContextSpec → ℕ
max_context_tokens_of none = 0
max_context_tokens_of (some c) = c.max_context_tokens

unfoldable pub max_output_tokens_of : Option ContextSpec → ℕ
max_output_tokens_of none = 0
max_output_tokens_of (some c) = c.max_output_tokens

unfoldable pub fill_context_tokens : Option ContextSpec → ℕ → Option ContextSpec
fill_context_tokens context tokens =
    if max_context_tokens_of context == 0 && not (tokens == 0)
    then some
        (record { max_context_tokens = tokens; max_output_tokens = max_output_tokens_of context })
    else context

unfoldable pub fill_output_tokens : Option ContextSpec → ℕ → Option ContextSpec
fill_output_tokens context tokens =
    if max_output_tokens_of context == 0 && not (tokens == 0)
    then some
        (record { max_context_tokens = max_context_tokens_of context; max_output_tokens = tokens })
    else context

unfoldable pub fill_context : Option ContextSpec → Option ContextSpec → Option ContextSpec
fill_context context fallback =
    fill_output_tokens (fill_context_tokens context (max_context_tokens_of fallback))
      (max_output_tokens_of fallback)

unfoldable pub fill_text : Text → Text → Text
fill_text text fallback =
    if is_empty (trim_space text) && not (is_empty (trim_space fallback)) then fallback else text

unfoldable pub fill_enum : ℕ → ℕ → ℕ
fill_enum value fallback = if value == 0 && not (fallback == 0) then fallback else value

abbrev pub is_nil : List ℕ → Bool
is_nil [] = true
is_nil (_ ∷ _) = false

unfoldable pub fill_list : List ℕ → List ℕ → List ℕ
fill_list values fallback = if is_nil values && not (is_nil fallback) then fallback else values

-- `mergeDefinitionMetadata` on two definitions.
unfoldable pub fill_definition : ModelVersion → ModelVersion → ModelVersion
fill_definition primary fallback = record {
  vendor_id = primary.vendor_id;
  model_id = primary.model_id;
  display_name = fill_text primary.display_name fallback.display_name;
  primary_shape = fill_enum primary.primary_shape fallback.primary_shape;
  supported_shapes = fill_list primary.supported_shapes fallback.supported_shapes;
  capabilities = fill_list primary.capabilities fallback.capabilities;
  input_modalities = fill_list primary.input_modalities fallback.input_modalities;
  output_modalities = fill_list primary.output_modalities fallback.output_modalities;
  context_spec = fill_context primary.context_spec fallback.context_spec;
  aliases = merge_definition_aliases primary.aliases fallback.aliases;
}

unfoldable pub merge_definition_metadata :
    Option ModelVersion → Option ModelVersion → Option ModelVersion
merge_definition_metadata none fallback = fallback
merge_definition_metadata (some p) none = some p
merge_definition_metadata (some p) (some f) = some (fill_definition p f)

-- `SurfaceIdentity`.
pub record SurfaceIdentity : Type 0 where
  pub vendor_id : Text
  pub model_id : Text

-- An error is `none`.
unfoldable pub new_surface_identity : Text → Text → Option SurfaceIdentity
new_surface_identity vendor_id model_id =
    let v = trim_space vendor_id in
    let m = trim_space model_id in
    if is_empty v
    then none
    else if is_empty m
    then none
    else some (record { vendor_id = v; model_id = m })

unfoldable pub identity_from_definition : Option ModelVersion → Option SurfaceIdentity
identity_from_definition none = none
identity_from_definition (some d) = new_surface_identity d.vendor_id d.model_id

-- The separator "\x00" is the byte 0.
unfoldable pub identity_key : Text → Text → Text
identity_key vendor_id model_id = trim_space vendor_id ++ 0 ∷ trim_space model_id

unfoldable pub key : SurfaceIdentity → Text
key i = identity_key i.vendor_id i.model_id

-- The numbers of the contract's enum values that the defaults name.
pub record Defaults : Type 0 where
  pub chat_completions : ℕ
  pub text_modality : ℕ

abbrev pub or_default : List ℕ → ℕ → List ℕ
or_default [] d = d ∷ []
or_default (x ∷ xs) d = x ∷ xs

unfoldable pub apply_create_defaults : Defaults → ModelVersion → ModelVersion
apply_create_defaults defaults d =
    let shape = if d.primary_shape == 0 then defaults.chat_completions else d.primary_shape in
    record {
      vendor_id = d.vendor_id;
      model_id = d.model_id;
      display_name = d.display_name;
      primary_shape = shape;
      supported_shapes = or_default d.supported_shapes shape;
      capabilities = d.capabilities;
      input_modalities = or_default d.input_modalities defaults.text_modality;
      output_modalities = or_default d.output_modalities defaults.text_modality;
      context_spec = d.context_spec;
      aliases = d.aliases;
    }

abbrev pub alias_value : Option ModelAlias → Option Text
alias_value none = none
alias_value (some alias) =
    let value = trim_space alias.value in if is_empty value then none else some value

unfoldable pub collect_definition_aliases : Option ModelVersion → List Text
collect_definition_aliases none = []
collect_definition_aliases (some d) = collect_distinct alias_value d.aliases

unfoldable pub has_definition_alias : Option ModelVersion → Text → Bool
has_definition_alias definition alias =
    let a = trim_space alias in
    if is_empty a then false else contains (collect_definition_aliases definition) a
