-- ===== src/CliVersions.antt =====
-- packages/platform-k8s/internal/cliruntimeservice/cliversions: the official versions of the
-- command-line tools, and their synchronization.
pub mod Source
pub mod Syncer
