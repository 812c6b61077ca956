-- ===== src/Support/MaterialRead/Grants.antt =====
-- credentialpolicy/material_read_authorizer.go: the fields that a read policy grants, described apart
-- from the code that lists them.

use code_code_platform_catal.Prelude.{
  ◌≡◌, refl, sym, ◌∙◌, Bool, true, false, not, ◌&&◌, List, [], Option, none, some, inl, inr,
  Bool-cases, Option-cases, contains,
}
use code_code_platform_catal.Text.{Text, text_eq, is_empty, is_space, trim_space, trim_idem}
use code_code_platform_catal.Support.MaterialRead.{
  Vendor, PolicyKind, unspecified, cli_oauth_quota_query, vendor_quota_query, other_kind, PolicyRef,
  Result, ok, error, MaterialReadAuthorizer, surface_for_id, cli_fields, vendor_fields, kind_fields,
  allowed_credential_material_fields,
}
use code_code_platform_catal.Support.MaterialRead.Laws.{
  capability_reads, contains-material_field_set,
}

-- The registered CLI or vendor surface of the policy reads the field for the policy's collector.
unfoldable pub kind_grants : MaterialReadAuthorizer → PolicyKind → Text → Text → Text → Text → Bool
kind_grants a unspecified owner collector surface f = false
kind_grants a (other_kind n) owner collector surface f = false
kind_grants a cli_oauth_quota_query owner collector surface f = elim a.cli_support [
  | none ↦ false
  | some support ↦ elim (support owner) [
    | none ↦ false
    | some cli ↦ capability_reads collector (trim_space cli.cli_id) true cli.observability f
  ]
]
kind_grants a vendor_quota_query owner collector surface f = elim a.vendor_support [
  | none ↦ false
  | some support ↦ elim (support owner) [
    | none ↦ false
    | some vendor ↦ elim (surface_for_id (some vendor) surface) [
      | none ↦ false
      | some s ↦ capability_reads collector [] false s.observability f
    ]
  ]
]

unfoldable pub grants : MaterialReadAuthorizer → Option PolicyRef → Text → Bool
grants a none f = false
grants a (some ref) f =
    not (is_empty (trim_space ref.owner_id))
    && not (is_empty (trim_space ref.collector_id))
    && kind_grants a ref.kind (trim_space ref.owner_id) (trim_space ref.collector_id) ref.surface_id
        f

abbrev pub allows : Result (List Text) → Text → Bool
allows (ok fields) f = contains fields f
allows (error c) f = false

allows-cli_fields :
    (a : MaterialReadAuthorizer) (owner collector surface f : Text)
    → allows (cli_fields a.cli_support owner collector) f
      ≡ kind_grants a cli_oauth_quota_query owner collector surface f
unfolding kind_grants cli_fields
allows-cli_fields a owner collector surface f = elim (Option-cases a.cli_support) [
  | inl e ↦ rw (e, cli_fields) refl
  | inr (support, e) ↦ elim (Option-cases (support owner)) [
    | inl missing ↦ rw (e, cli_fields, missing) refl
    | inr (cli, found) ↦
        rw (e, cli_fields, found)
          (contains-material_field_set collector (trim_space cli.cli_id) true cli.observability f)
  ]
]

allows-vendor_fields :
    (a : MaterialReadAuthorizer) (owner collector surface f : Text)
    → allows (vendor_fields a.vendor_support owner surface collector) f
      ≡ kind_grants a vendor_quota_query owner collector surface f
unfolding kind_grants vendor_fields
allows-vendor_fields a owner collector surface f = elim (Option-cases a.vendor_support) [
  | inl e ↦ rw (e, vendor_fields) refl
  | inr (support, e) ↦ elim (Option-cases (support owner)) [
    | inl missing ↦ rw (e, vendor_fields, missing) refl
    | inr (vendor, found) ↦ elim (Option-cases (surface_for_id (some vendor) surface)) [
      | inl absent ↦ rw (e, vendor_fields, found, absent) refl
      | inr (s, there) ↦
          rw (e, vendor_fields, found, there)
            (contains-material_field_set collector [] false s.observability f)
    ]
  ]
]

surface_for_id-trim :
    (vendor : Vendor) (surface : Text)
    → surface_for_id (some vendor) (trim_space surface) ≡ surface_for_id (some vendor) surface
unfolding surface_for_id
surface_for_id-trim vendor surface = rw (trim_idem is_space surface) refl

surface_for_id-blank :
    (vendor : Vendor) (surface : Text)
    → is_empty (trim_space surface) ≡ true
    → surface_for_id (some vendor) surface ≡ none
unfolding surface_for_id
surface_for_id-blank vendor surface blank = rw blank refl

kind_grants-trim :
    (a : MaterialReadAuthorizer) (owner collector surface f : Text)
    → kind_grants a vendor_quota_query owner collector (trim_space surface) f
      ≡ kind_grants a vendor_quota_query owner collector surface f
unfolding kind_grants
kind_grants-trim a owner collector surface f = elim (Option-cases a.vendor_support) [
  | inl e ↦ rw e refl
  | inr (support, e) ↦ elim (Option-cases (support owner)) [
    | inl missing ↦ rw (e, missing) refl
    | inr (vendor, found) ↦ rw (e, found, surface_for_id-trim vendor surface) refl
  ]
]

kind_grants-blank :
    (a : MaterialReadAuthorizer) (owner collector surface f : Text)
    → is_empty (trim_space surface) ≡ true
    → kind_grants a vendor_quota_query owner collector surface f ≡ false
unfolding kind_grants
kind_grants-blank a owner collector surface f blank = elim (Option-cases a.vendor_support) [
  | inl e ↦ rw e refl
  | inr (support, e) ↦ elim (Option-cases (support owner)) [
    | inl missing ↦ rw (e, missing) refl
    | inr (vendor, found) ↦ rw (e, found, surface_for_id-blank vendor surface blank) refl
  ]
]

allows-kind_fields :
    (a : MaterialReadAuthorizer) (kind : PolicyKind) (owner collector surface f : Text)
    → allows (kind_fields a kind owner collector surface) f
      ≡ kind_grants a kind owner collector surface f
unfolding kind_fields
allows-kind_fields a unspecified owner collector surface f = unfold kind_grants in refl
allows-kind_fields a (other_kind n) owner collector surface f = unfold kind_grants in refl
allows-kind_fields a cli_oauth_quota_query owner collector surface f =
    allows-cli_fields a owner collector surface f
allows-kind_fields a vendor_quota_query owner collector surface f =
    elim (Bool-cases (is_empty (trim_space surface))) [
      | inl blank ↦
          rw (blank, kind_fields) (sym (kind_grants-blank a owner collector surface f blank))
      | inr named ↦
          rw (named, kind_fields)
            (allows-vendor_fields a owner collector (trim_space surface) f
              ∙ kind_grants-trim a owner collector surface f)
    ]

pub allows-allowed :
    (a : MaterialReadAuthorizer) (ref : Option PolicyRef) (f : Text)
    → allows (allowed_credential_material_fields a ref) f ≡ grants a ref f
unfolding allowed_credential_material_fields grants
allows-allowed a none f = refl
allows-allowed a (some ref) f = elim (Bool-cases (is_empty (trim_space ref.owner_id))) [
  | inl blank ↦ rw blank refl
  | inr owner ↦ elim (Bool-cases (is_empty (trim_space ref.collector_id))) [
    | inl blank ↦ rw (owner, blank) refl
    | inr collector ↦ rw (owner, collector) (allows-kind_fields a ref.kind _ _ ref.surface_id f)
  ]
]
