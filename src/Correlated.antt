-- ===== src/Correlated.antt =====
-- src/correlated: the correlation engine over the alerts that `ruled` emits.
pub mod Config
pub mod Chain
pub mod Engine
pub mod Pipeline
mod Samples
