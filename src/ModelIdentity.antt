-- ===== src/ModelIdentity.antt =====
-- packages/platform-k8s/internal/modelservice/modelidentity/identity.go, in three parts: slugs,
-- release suffixes, and the identity of an external model.
pub mod Slug
pub mod Suffix
pub mod Candidates
