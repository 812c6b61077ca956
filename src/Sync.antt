-- ===== src/Sync.antt =====
-- packages/platform-k8s/internal/modelservice/models/sync: the vendors whose models are collected,
-- the snapshot of what was collected, and how it is applied to the registry.
pub mod Vendor
pub mod Snapshot
pub mod Apply
pub mod Collect
