-- ===== src/Store.antt =====
-- packages/platform-k8s/internal/modelservice/models/store: filters, pages, the resolution of
-- references, and the registry over the tables of the database.
pub mod Filter
pub mod Pages
pub mod Codec
pub mod Json
pub mod Tables
pub mod Write
pub mod Registry
pub mod Tokens
pub mod Scan
pub mod Listing
pub mod Query
