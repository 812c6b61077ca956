-- ===== src/Support/MaterialRead/Laws.antt =====
-- credentialpolicy/material_read_authorizer.go: the fields that the quota queries of a capability
-- name.
use code_code_platform_catal.Prelude.{
  ◌≡◌, refl, ap, ◌∙◌, Bool, false, not, ◌&&◌, ◌||◌, List, [], ◌∷◌, Option, none, some, arith, inl,
  inr, ◌==◌, Bool-cases, Option-cases, contains, yields, yields-append, yields-collect_distinct,
  contains-collect_distinct,
}
use code_code_platform_catal.Text.{Text, text_eq, is_empty, is_space, trim_space, trim_idem}
use code_code_platform_catal.Support.MaterialRead.{
  BackfillRule, QuotaQuery, ObservabilityProfile, Capability, field_id,
  normalize_field_ids_no_error, material_field_set, backfill_keys, current_collector_id,
  query_fields, profile_fields, profiles_fields, quota_query_readable_material_fields,
}

-- A readable rule of the list names the field.
unfoldable pub rules_read : List (Option BackfillRule) → Text → Bool
rules_read [] f = false
rules_read (none ∷ rules) f = rules_read rules f
rules_read (some rule ∷ rules) f =
    rule.readable && yields field_id (rule.target_material_key ∷ []) f || rules_read rules f

module _ (collector_id default_collector_id : Text) (use_default : Bool) where
  -- The query is the collector's, and lists the field or has a readable rule for it.
  unfoldable pub query_reads : QuotaQuery → Text → Bool
  query_reads query f =
      let id = current_collector_id default_collector_id use_default query.collector_id in
      not (is_empty id)
      && id == collector_id
      && (yields field_id query.material_read_fields f || rules_read query.credential_backfills f)

  unfoldable pub profiles_read : List (Option ObservabilityProfile) → Text → Bool
  profiles_read [] f = false
  profiles_read (none ∷ profiles) f = profiles_read profiles f
  profiles_read (some profile ∷ profiles) f =
      elim profile.quota_query [ none ↦ false | some query ↦ query_reads query f ]
      || profiles_read profiles f

  unfoldable pub capability_reads : Option Capability → Text → Bool
  capability_reads none f = false
  capability_reads (some capability) f = profiles_read capability.profiles f

field_id_idem : (x v : Text) → field_id x ≡ some v → field_id v ≡ some v
unfolding field_id
field_id_idem x v h = elim (Bool-cases (is_empty (trim_space x))) [
  | inl e ↦ ground (arith, e)
  | inr e ↦ ground (arith, e, trim_idem is_space x)
]

yields-backfill_keys :
    (rules : List (Option BackfillRule)) (f : Text)
    → yields field_id (backfill_keys rules) f ≡ rules_read rules f
unfolding backfill_keys rules_read yields
yields-backfill_keys [] f = refl
yields-backfill_keys (none ∷ rules) f = yields-backfill_keys rules f
yields-backfill_keys (some rule ∷ rules) f = elim (Bool-cases rule.readable) [
  | inl e ↦ rw e (ground (arith, yields-backfill_keys rules f))
  | inr e ↦ rw e (yields-backfill_keys rules f)
]

module _ (collector_id default_collector_id : Text) (use_default : Bool) where
  yields-query_fields :
      (query : QuotaQuery) (f : Text)
      → yields field_id (query_fields collector_id default_collector_id use_default query) f
        ≡ query_reads collector_id default_collector_id use_default query f
  unfolding query_fields query_reads
  yields-query_fields query f =
      elim (Bool-cases
        (is_empty (current_collector_id default_collector_id use_default query.collector_id))) [
          | inl blank ↦ rw blank (unfold yields in refl)
          | inr named ↦
              elim (Bool-cases (
                current_collector_id default_collector_id use_default query.collector_id
                == collector_id)) [
                  | inl same ↦
                      rw (named, same)
                        (yields-append field_id query.material_read_fields
                            (backfill_keys query.credential_backfills) f
                          ∙ ap (λ b. yields field_id query.material_read_fields f || b)
                              (yields-backfill_keys query.credential_backfills f))
                  | inr other ↦ rw (named, other) (unfold yields in refl)
                ]
        ]

  yields-profiles_fields :
      (profiles : List (Option ObservabilityProfile)) (f : Text)
      → yields field_id (profiles_fields collector_id default_collector_id use_default profiles) f
        ≡ profiles_read collector_id default_collector_id use_default profiles f
  unfolding profiles_fields profiles_read profile_fields
  yields-profiles_fields [] f = unfold yields in refl
  yields-profiles_fields (none ∷ profiles) f = yields-profiles_fields profiles f
  yields-profiles_fields (some profile ∷ profiles) f = elim (Option-cases profile.quota_query) [
    | inl e ↦ rw e (yields-profiles_fields profiles f)
    | inr (query, e) ↦ rw e (
        yields-append field_id (query_fields collector_id default_collector_id use_default query)
          (profiles_fields collector_id default_collector_id use_default profiles) f
        ∙ ground (arith, yields-query_fields query f, yields-profiles_fields profiles f))
  ]

  pub contains-material_field_set :
      (capability : Option Capability) (f : Text)
      → contains
          (material_field_set (
            quota_query_readable_material_fields collector_id default_collector_id use_default
              capability))
          f
        ≡ capability_reads collector_id default_collector_id use_default capability f
  unfolding material_field_set quota_query_readable_material_fields normalize_field_ids_no_error
      capability_reads
  contains-material_field_set none f =
      contains-collect_distinct field_id [] f ∙ (unfold yields in refl)
  contains-material_field_set (some capability) f =
      contains-collect_distinct field_id _ f
      ∙ yields-collect_distinct field_id field_id_idem _ f
      ∙ yields-profiles_fields capability.profiles f
