-- ===== src/Ruled.antt =====
-- src/ruled: Sigma rules over JSONL events, suppression, and the alert router.
pub mod Suppress
pub mod Sigma
pub mod Router
pub mod Pipeline
mod Samples
