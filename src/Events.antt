-- ===== src/Events.antt =====
-- packages/platform-k8s/internal/platform/domainevents: domain events are written to an outbox with
-- the change that they report, published from there to a stream, and handled by consumers.
pub mod Subjects
pub mod Outbox
pub mod Publisher
pub mod Consumer
