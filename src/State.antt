-- ===== src/State.antt =====
-- packages/platform-k8s/internal/platform/state: how the schema of the database is migrated.
pub mod Migrate
