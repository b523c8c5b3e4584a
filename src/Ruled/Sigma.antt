-- ===== src/Ruled/Sigma.antt =====
-- src/ruled/src/rules.rs: Sigma rules, their detection conditions, and how they are loaded.
pub mod Glob
pub mod Condition
pub mod Rule
pub mod Loading
