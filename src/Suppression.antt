-- ===== src/Suppression.antt =====
-- src/suppression: how panel queries are read, and which alerts they hide.
pub mod Token
pub mod Lexer
pub mod Syntax
pub mod Parser
pub mod Fields
pub mod Variables
pub mod Panel
pub mod Like
pub mod Leaves
pub mod Interpret
pub mod Rewrite
pub mod Negations
pub mod Evaluate
pub mod Accumulate
pub mod Agreement
