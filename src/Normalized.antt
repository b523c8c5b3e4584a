-- ===== src/Normalized.antt =====
-- src/normalized: the daemon that turns log lines into flat events and stores them by time.
pub mod Event
pub mod Flat
pub mod Output
pub mod Samples
