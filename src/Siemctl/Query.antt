-- ===== src/Siemctl/Query.antt =====
-- src/siemctl/src/query.rs: the query language of `siemctl search` and `siemctl alerts`.
pub mod Syntax
pub mod Lexer
pub mod Parser
pub mod Compile
pub mod Eval
pub mod Samples
