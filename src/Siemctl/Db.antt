-- ===== src/Siemctl/Db.antt =====
-- src/siemctl/src/db.rs: the per-bucket side of `siemctl`, between the queries and SQLite.
pub mod Cidr
pub mod RawLine

-- How a query compares a field.
pub data MatchMode : Type 0 where
  exact not_exact starting ending containing cidr any_value : MatchMode
