-- ===== src/Support/MaterialRead/Access.antt =====
-- credentialpolicy/material_read_authorizer.go: `AuthorizeCredentialMaterialRead`.
use mathlib.Core.Path.{subst}
use code_code_platform_catal.Prelude.{
  ◌≤◌, ◌≡◌, refl, sym, ap, ◌∙◌, ◌↔◌, true, List, [], ◌∷◌, Option, arith, inl, inr, Bool-cases,
  length, All, All-weaken, contains,
}
use code_code_platform_catal.Text.{Text, text_eq}
use code_code_platform_catal.Support.MaterialRead.{
  PolicyRef, Result, ok, error, and_then, MaterialReadAuthorizer, normalize_field_ids_no_error,
  non_empty, normalize_field_ids, allowed_credential_material_fields, all_allowed, check_fields,
  authorize_credential_material_read,
}
use code_code_platform_catal.Support.MaterialRead.Grants.{grants, allows, allows-allowed}

all_allowed_iff :
    (allowed fs : List Text)
    → (all_allowed allowed fs ≡ true) ↔ All (λ f. contains allowed f ≡ true) fs
unfolding all_allowed
all_allowed_iff allowed [] = (λ _. tt, λ _. refl)
all_allowed_iff allowed (f ∷ fs) = (
  λ h. (ground arith, (all_allowed_iff allowed fs).0 (ground arith)),
  λ (p, ps). ground (arith, p, (all_allowed_iff allowed fs).1 ps),
)

checked :
    (requested : List Text) (r : Result (List Text)) (fields : List Text)
    → 1 ≤ length requested
    → (and_then r (check_fields requested) ≡ ok fields)
      ↔ ((requested ≡ fields) × All (λ f. allows r f ≡ true) requested)
unfolding check_fields
checked [] r fields h = ground arith
checked (x ∷ xs) (error c) fields h = (λ e. ground arith, λ (e, all). ground (arith, all.0))
checked (x ∷ xs) (ok []) fields h =
    unfold contains in (λ e. ground arith, λ (e, all). ground (arith, all.0))
checked (x ∷ xs) (ok (a ∷ rest)) fields h = elim (Bool-cases (all_allowed (a ∷ rest) (x ∷ xs))) [
  | inl e ↦ rw e (
    λ k. (ground (arith, k), (all_allowed_iff (a ∷ rest) (x ∷ xs)).0 e),
    λ (same, all). ap ok same,
  )
  | inr e ↦ rw e (
    λ k. ground (arith, k),
    λ (same, all). ground (arith, e, (all_allowed_iff (a ∷ rest) (x ∷ xs)).1 all),
  )
]

-- A read of a credential's material is authorized with exactly the requested fields, trimmed and
-- each one once, if and only if there are any and the policy's registered CLI or vendor surface
-- lets the policy's collector read each of them; else it is an error.
pub authorize_credential_material_read-ok :
    (a : MaterialReadAuthorizer) (ref : Option PolicyRef) (field_ids fields : List Text)
    → (authorize_credential_material_read a ref field_ids ≡ ok fields) ↔ (
        (normalize_field_ids_no_error field_ids ≡ fields)
        × (1 ≤ length fields)
        × All (λ f. grants a ref f ≡ true) fields)
unfolding authorize_credential_material_read normalize_field_ids
authorize_credential_material_read-ok a ref field_ids fields =
    by_requested (normalize_field_ids_no_error field_ids) refl
  where
    by_requested :
        (requested : List Text)
        → normalize_field_ids_no_error field_ids ≡ requested
        → (and_then (non_empty requested) (λ requested.
              and_then
                (allowed_credential_material_fields a ref)
                (λ allowed. check_fields requested allowed))
            ≡ ok fields)
          ↔ ((requested ≡ fields) × (1 ≤ length fields) × All (λ f. grants a ref f ≡ true) fields)
    by_requested [] e = (λ h. ground (arith, h), λ (same, some_field, all). ground (arith, same))
    by_requested (x ∷ xs) e =
        let both =
          checked (x ∷ xs) (allowed_credential_material_fields a ref) fields (omega arith) in
        (
          λ h.
              let (same, all) = both.0 h in
              (
                same,
                subst (λ l. 1 ≤ length l) same (omega arith),
                subst (All (λ f. grants a ref f ≡ true)) same
                    (All-weaken (x ∷ xs) (λ f p. sym (allows-allowed a ref f) ∙ p) all),
              ),
          λ (same, some_field, all). both.1 (
            same,
            All-weaken (x ∷ xs) (λ f p. allows-allowed a ref f ∙ p)
                (subst (All (λ f. grants a ref f ≡ true)) (sym same) all),
          ),
        )
