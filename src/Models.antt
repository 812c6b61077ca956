-- ===== src/Models.antt =====
-- packages/platform-k8s/internal/modelservice/models: the collected metadata of models, its
-- normalization, and the merge of entries from several sources.
pub mod Types
pub mod Authority
pub mod Badges
pub mod Pricing
pub mod Definition
pub mod Collected
pub mod Registry
