-- ===== src/Ruled/Suppress.antt =====
-- src/ruled/src/suppress.rs: alert suppression, its condition language and its evaluator.
pub mod Cidr
pub mod Condition
pub mod Lexer
pub mod Parser
pub mod Rules
