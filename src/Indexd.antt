-- ===== src/Indexd.antt =====
-- src/indexd: the daemon that indexes the stored events, an SQLite file for each hour.
pub mod Parser
pub mod Db
pub mod Bucket
pub mod Files
pub mod Samples
