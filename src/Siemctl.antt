-- ===== src/Siemctl.antt =====
-- src/siemctl: the analyst's command line.
pub mod Time
pub mod RawFile
pub mod Window
pub mod Db
pub mod Query
pub mod Acks
pub mod Render
mod Samples
