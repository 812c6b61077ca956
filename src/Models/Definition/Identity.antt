-- ===== src/Models/Definition/Identity.antt =====
-- identity.go: the identity of a definition.
use code_code_platform_catal.Prelude.{
  ◌≡◌, false, Option, none, some, arith, inl, inr, Bool-cases, some_eq,
}
use code_code_platform_catal.Text.{Text, is_empty, is_space, trim_space, trim_idem}
use code_code_platform_catal.Models.Types.{ModelVersion}
use code_code_platform_catal.Models.Definition.{
  SurfaceIdentity, new_surface_identity, identity_from_definition,
}

abbrev pub IsTrimmed : Text → Type 0
IsTrimmed t = (trim_space t ≡ t) × (is_empty t ≡ false)

pub record IsIdentity (i : SurfaceIdentity) : Type 0 where
  pub vendor : IsTrimmed i.vendor_id
  pub model : IsTrimmed i.model_id

new_surface_identity-IsIdentity :
    (v m : Text) (i : SurfaceIdentity) → new_surface_identity v m ≡ some i → IsIdentity i
unfolding new_surface_identity
new_surface_identity-IsIdentity v m i h = elim (Bool-cases (is_empty (trim_space v))) [
  | inl blank ↦ absurd (ground (arith, h, blank))
  | inr named ↦ elim (Bool-cases (is_empty (trim_space m))) [
    | inl blank ↦ absurd (ground (arith, h, named, blank))
    | inr given ↦
        let same : record { vendor_id = trim_space v; model_id = trim_space m } ≡ i =
          some_eq (rw (named, given) at h) in
        rw (← same)
          (record { vendor = (trim_idem is_space v, named); model = (trim_idem is_space m, given) })
  ]
]

pub identity_from_definition-IsIdentity :
    (d : Option ModelVersion) (i : SurfaceIdentity)
    → identity_from_definition d ≡ some i
    → IsIdentity i
unfolding identity_from_definition
identity_from_definition-IsIdentity none i h = absurd (ground (arith, h))
identity_from_definition-IsIdentity (some d) i h =
    new_surface_identity-IsIdentity d.vendor_id d.model_id i h
