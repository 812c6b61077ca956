-- ===== src/Sync/Vendor/Laws.antt =====
-- sync/vendor.go: the resolution of a vendor id.
use code_code_platform_catal.Prelude.{
  ◌≡◌, refl, sym, ◌∙◌, Bool, true, false, not, ◌&&◌, ◌||◌, List, [], ◌∷◌, some, if◌then◌else◌, ◌==◌,
  contains, contains-append, eq_iff, arith, inl, inr, Bool-cases, Option-cases, some_eq,
}
use code_code_platform_catal.Text.{Text, text_eq, is_empty}
use code_code_platform_catal.ModelIdentity.Slug.{normalized_vendor_slug}
use code_code_platform_catal.Models.Authority.{is_preset_source_vendor_id}
use code_code_platform_catal.Sync.Vendor.{
  ConfiguredVendor, VendorScope, add, add_vendor, add_vendors, empty_scope,
  new_configured_vendor_scope, configured_vendor_id, canonical_vendor_id,
}

-- The vendor's slug is the id, and the vendor is not a preset source.
unfoldable pub is_vendor : Text → ConfiguredVendor → Bool
is_vendor id vendor =
    let slug = normalized_vendor_slug vendor.vendor_id in
    slug == id && not (is_empty slug || is_preset_source_vendor_id slug)

unfoldable pub any_vendor : Text → List ConfiguredVendor → Bool
any_vendor id [] = false
any_vendor id (vendor ∷ vendors) = is_vendor id vendor || any_vendor id vendors

contains-add :
    (id : Text) (ids : List Text) (x : Text) → contains (add id ids) x ≡ (contains ids x || id == x)
unfolding add contains
contains-add id ids x =
    ground (arith, contains-append ids (id ∷ []) x, eq_iff id x, contains ids id)

canonical_ids-add_vendor :
    (scope : VendorScope) (vendor : ConfiguredVendor)
    → let slug = normalized_vendor_slug vendor.vendor_id in
      (add_vendor scope vendor).canonical_ids ≡ (
        if is_empty slug || is_preset_source_vendor_id slug
        then scope.canonical_ids
        else add slug scope.canonical_ids)
unfolding add_vendor
canonical_ids-add_vendor scope vendor =
    elim (Bool-cases (is_empty (normalized_vendor_slug vendor.vendor_id))) [
      | inl e ↦ rw e refl
      | inr e ↦ rw e refl
    ]

contains-add_vendor :
    (scope : VendorScope) (vendor : ConfiguredVendor) (id : Text)
    → contains (add_vendor scope vendor).canonical_ids id
      ≡ (contains scope.canonical_ids id || is_vendor id vendor)
unfolding is_vendor
contains-add_vendor scope vendor id =
    let slug = normalized_vendor_slug vendor.vendor_id in
    rw (canonical_ids-add_vendor scope vendor)
      (elim (Bool-cases (is_empty slug || is_preset_source_vendor_id slug)) [
        | inl e ↦ rw e (ground arith)
        | inr e ↦ rw e (ground (arith, contains-add slug scope.canonical_ids id))
      ])

contains-add_vendors :
    (scope : VendorScope) (vendors : List ConfiguredVendor) (id : Text)
    → contains (add_vendors scope vendors).canonical_ids id
      ≡ (contains scope.canonical_ids id || any_vendor id vendors)
unfolding add_vendors any_vendor
contains-add_vendors scope [] id = ground arith
contains-add_vendors scope (vendor ∷ vendors) id = ground (
  arith,
  contains-add_vendors (add_vendor scope vendor) vendors id,
  contains-add_vendor scope vendor id,
)

pub contains-new_configured_vendor_scope :
    (vendors : List ConfiguredVendor) (id : Text)
    → contains (new_configured_vendor_scope vendors).canonical_ids id ≡ any_vendor id vendors
unfolding new_configured_vendor_scope contains
contains-new_configured_vendor_scope vendors id = contains-add_vendors empty_scope vendors id

-- A name resolves only to the id of a configured vendor that is not a preset source.
pub canonical_vendor_id_sound :
    (vendors : List ConfiguredVendor) (raw id : Text)
    → canonical_vendor_id (new_configured_vendor_scope vendors) raw ≡ some id
    → any_vendor id vendors ≡ true
unfolding canonical_vendor_id
canonical_vendor_id_sound vendors raw id h =
    let scope = new_configured_vendor_scope vendors in
    elim (Option-cases (configured_vendor_id scope raw)) [
      | inl missing ↦ absurd (ground (arith, missing))
      | inr (found, e) ↦ elim (Bool-cases (contains scope.canonical_ids found)) [
        | inl listed ↦
            let same : found ≡ id = some_eq (rw listed at (rw (e, canonical_vendor_id) at h)) in
            sym (contains-new_configured_vendor_scope vendors id) ∙ rw same at listed
        | inr unlisted ↦ absurd (ground (arith, e, unlisted))
      ]
    ]
