-- ===== src/Sync/Vendor.antt =====
-- sync/vendor.go: the scope of the configured vendors. A Go set is the list of its elements.
pub mod Laws
use code_code_platform_catal.Prelude.{
  Bool, true, false, not, ◌&&◌, ◌||◌, List, [], ◌∷◌, ◌++◌, Option, none, some, if◌then◌else◌, ◌==◌,
  get, put, contains, sort_by,
}
use code_code_platform_catal.Text.{Text, text_eq, is_empty, trim_space, compare_text}
use code_code_platform_catal.ModelIdentity.Slug.{normalized_vendor_slug}
use code_code_platform_catal.Models.Authority.{is_preset_source_vendor_id}

-- `configuredVendor`.
pub record ConfiguredVendor : Type 0 where
  pub vendor_id : Text
  pub aliases : List Text

-- `configuredVendorScope`.
pub record VendorScope : Type 0 where
  pub canonical_ids : List Text
  pub managed_ids : List Text
  pub aliases : List (Text × Text)
  pub raw_aliases : List (Text × List Text)

unfoldable pub add : Text → List Text → List Text
add id ids = if contains ids id then ids else ids ++ id ∷ []

unfoldable pub append_unique_string : List Text → Text → List Text
append_unique_string values candidate =
    let c = trim_space candidate in
    if is_empty c then values else if contains values c then values else values ++ c ∷ []

unfoldable pub bind_configured_vendor_alias : List (Text × Text) → Text → Text → List (Text × Text)
bind_configured_vendor_alias out alias canonical =
    let a = normalized_vendor_slug alias in
    let c = normalized_vendor_slug canonical in
    if is_empty a || is_empty c then out else elim (get out a) [
      | none ↦ put a c out
      | some current ↦ if current == c then put a c out else put a [] out
    ]

abbrev pub texts_of : Option (List Text) → List Text
texts_of none = []
texts_of (some texts) = texts

-- The loop over the aliases of one vendor.
unfoldable pub bind_aliases :
    Text
    → List Text
    → List (Text × Text) × List (Text × List Text)
    → List (Text × Text) × List (Text × List Text)
bind_aliases vendor_id [] (out, raw) = (out, raw)
bind_aliases vendor_id (alias ∷ aliases) (out, raw) = bind_aliases vendor_id aliases (
  bind_configured_vendor_alias out alias vendor_id,
  put vendor_id (append_unique_string (texts_of (get raw vendor_id)) alias) raw,
)

-- The body of the loop over the vendors.
unfoldable pub add_vendor : VendorScope → ConfiguredVendor → VendorScope
add_vendor scope vendor =
    let id = normalized_vendor_slug vendor.vendor_id in
    let bound = bind_aliases id vendor.aliases (put id id scope.aliases, scope.raw_aliases) in
    if is_empty id then scope else record {
      canonical_ids =
          if is_preset_source_vendor_id id then scope.canonical_ids else add id scope.canonical_ids;
      managed_ids =
          if is_preset_source_vendor_id id then scope.managed_ids else add id scope.managed_ids;
      aliases = bound.0;
      raw_aliases = bound.1;
    }

unfoldable pub add_vendors : VendorScope → List ConfiguredVendor → VendorScope
add_vendors scope [] = scope
add_vendors scope (vendor ∷ vendors) = add_vendors (add_vendor scope vendor) vendors

abbrev pub empty_scope : VendorScope
empty_scope = record { canonical_ids = []; managed_ids = []; aliases = []; raw_aliases = [] }

unfoldable pub new_configured_vendor_scope : List ConfiguredVendor → VendorScope
new_configured_vendor_scope vendors = add_vendors empty_scope vendors

unfoldable pub configured_vendor_id : VendorScope → Text → Option Text
configured_vendor_id scope raw = elim (get scope.aliases (normalized_vendor_slug raw)) [
  | none ↦ none
  | some canonical ↦ if is_empty canonical then none else some canonical
]

unfoldable pub canonical_vendor_id : VendorScope → Text → Option Text
canonical_vendor_id scope raw = elim (configured_vendor_id scope raw) [
  | none ↦ none
  | some vendor_id ↦ if contains scope.canonical_ids vendor_id then some vendor_id else none
]

unfoldable pub alias_candidates : VendorScope → Text → List Text
alias_candidates scope vendor_id =
    let id = normalized_vendor_slug vendor_id in
    if is_empty id then [] else sort_by compare_text (texts_of (get scope.raw_aliases id))
