-- ===== src/Sources/Projections.antt =====
-- What each source tells of a model: source/cerebras, source/github, source/huggingface,
-- source/modelscope and source/nvidia. A decoded JSON object is a record.
pub mod Cerebras
pub mod Github
pub mod HuggingFace
pub mod ModelScope
pub mod Nvidia
