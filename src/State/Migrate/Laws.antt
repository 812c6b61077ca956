-- ===== src/State/Migrate/Laws.antt =====
-- state/postgres/migrate.go: two runs of `Migrate`.
use code_code_platform_catal.Prelude.{
  ℕ, ◌≡◌, refl, sym, ap, ◌∙◌, true, ◌||◌, List, [], ◌∷◌, ◌++◌, Option, some, some_eq, arith, inl,
  inr, Bool-cases, Option-cases, nat_eq, eq_self, All, bind-some,
}
use code_code_platform_catal.Text.{Text}
use code_code_platform_catal.State.Migrate.{
  Migration, AppliedMigration, Schema, is_valid_migration, is_applied, apply_migration, migrate,
}

is_applied-append :
    (v : ℕ) (rows more : List AppliedMigration)
    → is_applied v (rows ++ more) ≡ (is_applied v rows || is_applied v more)
unfolding is_applied
is_applied-append v [] more = refl
is_applied-append v (row ∷ rows) more = ground (arith, is_applied-append v rows more)

-- The migration is valid and was applied.
abbrev IsDone : List AppliedMigration → Migration → Type 0
IsDone rows m = (is_valid_migration m ≡ true) × (is_applied m.version rows ≡ true)

module _ {D : Type 0} where
  abbrev with_migration : Migration → Schema D → D → Schema D
  with_migration m s database = record {
    applied = s.applied ++ record { version = m.version; name = m.name } ∷ [];
    database = database;
  }

  with_migration-applied :
      (m : Migration) (s : Schema D) (d : D)
      → (is_applied m.version (with_migration m s d).applied ≡ true)
        × ((v : ℕ)
            → is_applied v s.applied ≡ true
            → is_applied v (with_migration m s d).applied ≡ true)
  unfolding is_applied
  with_migration-applied m s d =
      let row : List AppliedMigration = record { version = m.version; name = m.name } ∷ [] in
      (
        ground (arith, is_applied-append m.version s.applied row, eq_self m.version),
        λ v e. ground (arith, is_applied-append v s.applied row, e),
      )

module _ {D : Type 0} (exec : Text → D → Option D) where
  -- A turn of the loop applies its migration and forgets none.
  apply_migration-applied :
      (m : Migration) (s t : Schema D)
      → apply_migration exec m s ≡ some t
      → (is_valid_migration m ≡ true)
        × (is_applied m.version t.applied ≡ true)
        × ((v : ℕ) → is_applied v s.applied ≡ true → is_applied v t.applied ≡ true)
  unfolding apply_migration
  apply_migration-applied m s t h = elim (Bool-cases (is_valid_migration m)) [
    | inr invalid ↦ absurd (ground (arith, h, invalid))
    | inl valid ↦ elim (Bool-cases (is_applied m.version s.applied)) [
      | inl old ↦
          let same : s ≡ t = ground (arith, h, valid, old) in rw (← same) (valid, old, λ v e. e)
      | inr new ↦ elim (Option-cases (exec m.sql s.database)) [
        | inl fails ↦ absurd (ground (arith, h, valid, new, fails))
        | inr (d, ran) ↦
            let same : with_migration m s d ≡ t = ground (arith, h, valid, new, ran) in
            let (there, kept) = with_migration-applied m s d in rw (← same) (valid, there, kept)
      ]
    ]
  ]

  migrate-IsDone :
      (ms : List Migration) (s t : Schema D)
      → migrate exec ms s ≡ some t
      → All (IsDone t.applied) ms
        × ((v : ℕ) → is_applied v s.applied ≡ true → is_applied v t.applied ≡ true)
  unfolding migrate
  migrate-IsDone [] s t h =
      (tt, λ v e. ap (λ (r : Schema D). is_applied v r.applied) (sym (some_eq h)) ∙ e)
  migrate-IsDone (m ∷ ms) s t h =
      let (u, first, rest) = bind-some (apply_migration exec m s) (migrate exec ms) t h in
      let (valid, applied, kept) = apply_migration-applied m s u first in
      let (done, still) = migrate-IsDone ms u t rest in
      (((valid, still m.version applied), done), λ v e. still v (kept v e))

  -- Migrations that were applied do nothing.
  migrate_again :
      (ms more : List Migration) (s : Schema D)
      → All (IsDone s.applied) ms
      → migrate exec (ms ++ more) s ≡ migrate exec more s
  unfolding migrate apply_migration
  migrate_again [] more s h = refl
  migrate_again (m ∷ ms) more s ((valid, applied), h) =
      rw (valid, applied) (migrate_again ms more s h)

  -- When Migrate has succeeded, a later version of the program with more migrations at the end runs
  -- only the new ones, whatever the statements do; with no new ones nothing is run.
  pub migrate-append :
      (ms more : List Migration) (s t : Schema D)
      → migrate exec ms s ≡ some t
      → migrate exec (ms ++ more) t ≡ migrate exec more t
  migrate-append ms more s t h = migrate_again ms more t (migrate-IsDone ms s t h).0
