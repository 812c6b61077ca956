-- ===== src/Tests/Migrations.antt =====
-- Two migrations on a database that remembers its statements, and a third one later.
use code_code_platform_catal.Prelude.{ℕ, ◌≡◌, refl, List, [], ◌∷◌, ◌++◌, Option, some}
use code_code_platform_catal.Text.{Text, codes}
use code_code_platform_catal.State.Migrate.{Migration, Schema, migrate}
use code_code_platform_catal.State.Migrate.Laws.{migrate-append}

abbrev run : Text → List Text → Option (List Text)
run sql log = some (sql ∷ log)

abbrev migration : ℕ → Migration
migration version = record { version = version; name = codes "step"; sql = codes "create" }

abbrev first_two : List Migration
first_two = migration 1 ∷ migration 2 ∷ []

abbrev empty_schema : Schema (List Text)
empty_schema = record { applied = []; database = [] }

abbrev migrated : Schema (List Text)
migrated = record {
  applied =
      record { version = 1; name = codes "step" }
      ∷ record { version = 2; name = codes "step" }
      ∷ [];
  database = codes "create" ∷ codes "create" ∷ [];
}

first_run : migrate run first_two empty_schema ≡ some migrated
unfolding migrate code_code_platform_catal.State.Migrate.apply_migration
    code_code_platform_catal.State.Migrate.is_valid_migration code_code_platform_catal.Text.trim
    code_code_platform_catal.Text.is_space code_code_platform_catal.State.Migrate.is_applied
first_run = refl

migrate-append_example :
    migrate run (first_two ++ migration 3 ∷ []) migrated ≡ migrate run (migration 3 ∷ []) migrated
migrate-append_example =
    migrate-append run first_two (migration 3 ∷ []) empty_schema migrated first_run
