-- ===== src/Sources/OpenRouter.antt =====
-- source/openrouter: the identity of an OpenRouter model, and the merge of its routes.
pub mod Identity
pub mod Normalize
pub mod Laws
