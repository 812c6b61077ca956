-- ===== src/Tests/Reads.antt =====
-- A read of a credential's material at one registered CLI.
use code_code_platform_catal.Prelude.{
  ◌≡◌, refl, Bool, true, List, [], ◌∷◌, Option, none, some, arith, if◌then◌else◌, ◌==◌,
}
use code_code_platform_catal.Text.{Text, text_eq, codes}
use code_code_platform_catal.Support.MaterialRead.{
  BackfillRule, QuotaQuery, ObservabilityProfile, Capability, Cli, PolicyRef, cli_oauth_quota_query,
  Result, ok, error, permission_denied, MaterialReadAuthorizer, authorize_credential_material_read,
}
use code_code_platform_catal.Support.MaterialRead.Access.{authorize_credential_material_read-ok}

abbrev gemini : Cli
gemini = record {
  cli_id = codes "gemini-cli";
  observability = some (record {
    profiles =
        none
        ∷ some (record {
          quota_query = some (record {
            collector_id = [];
            material_read_fields = codes "project_id" ∷ [];
            credential_backfills =
                some (record { readable = true; target_material_key = codes "tier_name" }) ∷ [];
          });
        })
        ∷ [];
  });
}

abbrev authorizer : MaterialReadAuthorizer
authorizer = record {
  cli_support = some (λ id. if id == codes "gemini-cli" then some gemini else none);
  vendor_support = none;
}

abbrev policy : PolicyRef
policy = record {
  kind = cli_oauth_quota_query;
  owner_id = codes " gemini-cli";
  collector_id = codes "gemini-cli";
  surface_id = [];
}

denied_test :
    authorize_credential_material_read authorizer (some policy) (codes "access_token" ∷ [])
    ≡ error permission_denied
unfolding authorize_credential_material_read
    code_code_platform_catal.Support.MaterialRead.normalize_field_ids
    code_code_platform_catal.Support.MaterialRead.normalize_field_ids_no_error
    code_code_platform_catal.Prelude.collect_distinct
    code_code_platform_catal.Support.MaterialRead.field_id code_code_platform_catal.Text.trim
    code_code_platform_catal.Text.is_space
    code_code_platform_catal.Support.MaterialRead.allowed_credential_material_fields
    code_code_platform_catal.Support.MaterialRead.kind_fields
    code_code_platform_catal.Support.MaterialRead.cli_fields
    code_code_platform_catal.Prelude.list_beq
    code_code_platform_catal.Support.MaterialRead.check_fields
    code_code_platform_catal.Support.MaterialRead.material_field_set
    code_code_platform_catal.Support.MaterialRead.quota_query_readable_material_fields
    code_code_platform_catal.Support.MaterialRead.profiles_fields
    code_code_platform_catal.Support.MaterialRead.profile_fields
    code_code_platform_catal.Support.MaterialRead.query_fields
    code_code_platform_catal.Prelude.collect_from code_code_platform_catal.Prelude.contains
    code_code_platform_catal.Prelude.push_distinct
    code_code_platform_catal.Support.MaterialRead.all_allowed
    code_code_platform_catal.Support.MaterialRead.backfill_keys
    code_code_platform_catal.Support.MaterialRead.current_collector_id
    code_code_platform_catal.Support.MaterialRead.surface_for_id
    code_code_platform_catal.Support.MaterialRead.vendor_fields
    code_code_platform_catal.Text.trim_left code_code_platform_catal.Text.trim_right
denied_test = refl

authorize_credential_material_read-ok_example :
    authorize_credential_material_read authorizer
      (some policy)
      (codes " tier_name" ∷ codes "project_id" ∷ codes "tier_name" ∷ [])
    ≡ ok (codes "tier_name" ∷ codes "project_id" ∷ [])
unfolding code_code_platform_catal.Support.MaterialRead.normalize_field_ids_no_error
    code_code_platform_catal.Prelude.collect_distinct
    code_code_platform_catal.Support.MaterialRead.field_id code_code_platform_catal.Text.trim
    code_code_platform_catal.Text.is_space code_code_platform_catal.Prelude.list_beq
    code_code_platform_catal.Support.MaterialRead.Grants.grants
    code_code_platform_catal.Support.MaterialRead.Grants.kind_grants
    code_code_platform_catal.Support.MaterialRead.Laws.capability_reads
    code_code_platform_catal.Support.MaterialRead.Laws.profiles_read
    code_code_platform_catal.Support.MaterialRead.Laws.query_reads
    code_code_platform_catal.Support.MaterialRead.current_collector_id
    code_code_platform_catal.Prelude.yields
    code_code_platform_catal.Support.MaterialRead.Laws.rules_read
authorize_credential_material_read-ok_example =
    (authorize_credential_material_read-ok authorizer (some policy)
        (codes " tier_name" ∷ codes "project_id" ∷ codes "tier_name" ∷ [])
        (codes "tier_name" ∷ codes "project_id" ∷ [])).1
      (refl, omega arith, (refl, (refl, tt)))
