-- ===== src/Support/MaterialRead.antt =====
-- supportservice/credentialpolicy/material_read_authorizer.go. The registries of CLIs and vendors
-- are functions; an error of theirs is `none`.
pub mod Laws
pub mod Grants
pub mod Access
use code_code_platform_catal.Prelude.{
  ℕ, Bool, true, false, ◌&&◌, List, [], ◌∷◌, ◌++◌, Option, none, some, if◌then◌else◌, ◌==◌,
  contains, collect_distinct,
}
use code_code_platform_catal.Text.{Text, text_eq, is_empty, trim_space}

pub record BackfillRule : Type 0 where
  pub readable : Bool
  pub target_material_key : Text

pub record QuotaQuery : Type 0 where
  pub collector_id : Text
  pub material_read_fields : List Text
  pub credential_backfills : List (Option BackfillRule)

pub record ObservabilityProfile : Type 0 where
  pub quota_query : Option QuotaQuery

pub record Capability : Type 0 where
  pub profiles : List (Option ObservabilityProfile)

pub record Cli : Type 0 where
  pub cli_id : Text
  pub observability : Option Capability

pub record Surface : Type 0 where
  pub surface_id : Text
  pub observability : Option Capability

pub record Vendor : Type 0 where
  pub surfaces : List Surface

pub data PolicyKind : Type 0 where
  unspecified : PolicyKind
  cli_oauth_quota_query : PolicyKind
  vendor_quota_query : PolicyKind
  other_kind : ℕ → PolicyKind

pub record PolicyRef : Type 0 where
  pub kind : PolicyKind
  pub owner_id : Text
  pub collector_id : Text
  pub surface_id : Text

pub data Code : Type 0 where
  invalid_argument : Code
  permission_denied : Code
  unavailable : Code

pub data Result {ℓ} (A : Type ℓ) : Type ℓ where
  ok : A → Result A
  error : Code → Result A

abbrev pub and_then {ℓ κ} : {A : Type ℓ} {B : Type κ} → Result A → (A → Result B) → Result B
and_then (ok a) f = f a
and_then (error c) f = error c

-- `MaterialReadAuthorizer`; a nil service is `none`.
pub record MaterialReadAuthorizer : Type 0 where
  pub cli_support : Option (Text → Option Cli)
  pub vendor_support : Option (Text → Option Vendor)

unfoldable pub field_id : Text → Option Text
field_id field = let f = trim_space field in if is_empty f then none else some f

unfoldable pub normalize_field_ids_no_error : List Text → List Text
normalize_field_ids_no_error field_ids = collect_distinct field_id field_ids

abbrev pub non_empty : List Text → Result (List Text)
non_empty [] = error invalid_argument
non_empty (x ∷ xs) = ok (x ∷ xs)

unfoldable pub normalize_field_ids : List Text → Result (List Text)
normalize_field_ids field_ids = non_empty (normalize_field_ids_no_error field_ids)

-- The keys of the set.
unfoldable pub material_field_set : List Text → List Text
material_field_set fields = collect_distinct field_id fields

unfoldable pub backfill_keys : List (Option BackfillRule) → List Text
backfill_keys [] = []
backfill_keys (none ∷ rules) = backfill_keys rules
backfill_keys (some rule ∷ rules) =
    let rest = backfill_keys rules in
    if rule.readable then rule.target_material_key ∷ rest else rest

-- The collector of a query, with the default where it names none.
unfoldable pub current_collector_id : Text → Bool → Text → Text
current_collector_id default_collector_id use_default collector_id =
    let id = trim_space collector_id in
    if is_empty id && use_default then trim_space default_collector_id else id

module _ (collector_id default_collector_id : Text) (use_default : Bool) where
  unfoldable pub query_fields : QuotaQuery → List Text
  query_fields query =
      let id = current_collector_id default_collector_id use_default query.collector_id in
      if is_empty id
      then []
      else if id == collector_id
      then query.material_read_fields ++ backfill_keys query.credential_backfills
      else []

  unfoldable pub profile_fields : Option ObservabilityProfile → List Text
  profile_fields none = []
  profile_fields (some profile) = elim profile.quota_query [
    | none ↦ []
    | some query ↦ query_fields query
  ]

  unfoldable pub profiles_fields : List (Option ObservabilityProfile) → List Text
  profiles_fields [] = []
  profiles_fields (p ∷ ps) = profile_fields p ++ profiles_fields ps

  unfoldable pub quota_query_readable_material_fields : Option Capability → List Text
  quota_query_readable_material_fields none = []
  quota_query_readable_material_fields (some capability) =
      normalize_field_ids_no_error (profiles_fields capability.profiles)

-- `SurfaceForID` of platform/vendors/support/surfaces.go.
abbrev pub find_surface : Text → List Surface → Option Surface
find_surface id [] = none
find_surface id (s ∷ surfaces) =
    if trim_space s.surface_id == id then some s else find_surface id surfaces

unfoldable pub surface_for_id : Option Vendor → Text → Option Surface
surface_for_id none surface_id = none
surface_for_id (some vendor) surface_id =
    let id = trim_space surface_id in if is_empty id then none else find_surface id vendor.surfaces

unfoldable pub cli_fields : Option (Text → Option Cli) → Text → Text → Result (List Text)
cli_fields none cli_id collector_id = error unavailable
cli_fields (some support) cli_id collector_id = elim (support cli_id) [
  | none ↦ error permission_denied
  | some cli ↦ ok (
      material_field_set (
        quota_query_readable_material_fields collector_id (trim_space cli.cli_id) true
          cli.observability))
]

abbrev pub surface_fields : Text → Option Surface → Result (List Text)
surface_fields collector_id none = error permission_denied
surface_fields collector_id (some surface) = ok (
    material_field_set
      (quota_query_readable_material_fields collector_id [] false surface.observability))

unfoldable pub vendor_fields :
    Option (Text → Option Vendor) → Text → Text → Text → Result (List Text)
vendor_fields none vendor_id surface_id collector_id = error unavailable
vendor_fields (some support) vendor_id surface_id collector_id = elim (support vendor_id) [
  | none ↦ error permission_denied
  | some vendor ↦ surface_fields collector_id (surface_for_id (some vendor) surface_id)
]

-- The switch on the kind.
unfoldable pub kind_fields :
    MaterialReadAuthorizer → PolicyKind → Text → Text → Text → Result (List Text)
kind_fields a unspecified owner collector surface = error invalid_argument
kind_fields a cli_oauth_quota_query owner collector surface =
    cli_fields a.cli_support owner collector
kind_fields a vendor_quota_query owner collector surface =
    let id = trim_space surface in
    if is_empty id
    then error invalid_argument
    else vendor_fields a.vendor_support owner id collector
kind_fields a (other_kind n) owner collector surface = error invalid_argument

unfoldable pub allowed_credential_material_fields :
    MaterialReadAuthorizer → Option PolicyRef → Result (List Text)
allowed_credential_material_fields a none = error invalid_argument
allowed_credential_material_fields a (some ref) =
    let owner = trim_space ref.owner_id in
    let collector = trim_space ref.collector_id in
    if is_empty owner
    then error invalid_argument
    else if is_empty collector
    then error invalid_argument
    else kind_fields a ref.kind owner collector ref.surface_id

-- The loop over the requested fields.
unfoldable pub all_allowed : List Text → List Text → Bool
all_allowed allowed [] = true
all_allowed allowed (f ∷ fs) = contains allowed f && all_allowed allowed fs

unfoldable pub check_fields : List Text → List Text → Result (List Text)
check_fields requested [] = error permission_denied
check_fields requested (f ∷ fs) =
    if all_allowed (f ∷ fs) requested then ok requested else error permission_denied

unfoldable pub authorize_credential_material_read :
    MaterialReadAuthorizer → Option PolicyRef → List Text → Result (List Text)
authorize_credential_material_read a ref field_ids =
    and_then (normalize_field_ids field_ids) (λ requested.
      and_then (allowed_credential_material_fields a ref)
        (λ allowed. check_fields requested allowed))
