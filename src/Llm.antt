-- ===== src/Llm.antt =====
-- The assessment by the language model (src/llm).
pub mod Grouping
pub mod Response
pub mod Assess
