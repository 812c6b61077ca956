-- ===== src/State/Migrate.antt =====
-- state/postgres/migrate.go. What a statement makes of the database is a parameter; an error is
-- `none`, and the whole transaction is rolled back.
pub mod Laws
use Prim.Native.Nat.{◌^◌}
use code_code_platform_catal.Prelude.{
  ℕ, Bool, true, false, not, ◌&&◌, ◌||◌, List, [], ◌∷◌, ◌++◌, Option, none, some, if◌then◌else◌,
  ◌==◌, nat_eq, ltb, ◌>>=◌,
}
use code_code_platform_catal.Text.{Text, is_empty, trim_space}

-- `Migration`; the version is the bit pattern of an int64.
pub record Migration : Type 0 where
  pub version : ℕ
  pub name : Text
  pub sql : Text

-- A row of `platform_schema_migrations`.
pub record AppliedMigration : Type 0 where
  pub version : ℕ
  pub name : Text

pub record Schema (D : Type 0) : Type 0 where
  pub applied : List AppliedMigration
  pub database : D

unfoldable pub is_valid_migration : Migration → Bool
is_valid_migration migration =
    ltb 0 migration.version
    && ltb migration.version (2 ^ 63)
    && not (is_empty (trim_space migration.name))
    && not (is_empty (trim_space migration.sql))

unfoldable pub is_applied : ℕ → List AppliedMigration → Bool
is_applied version [] = false
is_applied version (row ∷ rows) = row.version == version || is_applied version rows

module _ {D : Type 0} (exec : Text → D → Option D) where
  -- One turn of the loop.
  unfoldable pub apply_migration : Migration → Schema D → Option (Schema D)
  apply_migration migration schema =
      if is_valid_migration migration
      then if is_applied migration.version schema.applied
        then some schema
        else elim (exec migration.sql schema.database) [
          | none ↦ none
          | some database ↦ some (record {
            applied =
                schema.applied
                ++ record { version = migration.version; name = migration.name } ∷ [];
            database = database;
          })
        ]
      else none

  unfoldable pub migrate : List Migration → Schema D → Option (Schema D)
  migrate [] schema = some schema
  migrate (migration ∷ migrations) schema = apply_migration migration schema >>= migrate migrations
