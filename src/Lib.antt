-- ===== src/Lib.antt =====
-- Headless SIEM: a pipeline of five programs that read and write lines of JSON. `normalized` turns
-- log lines into flat events, `ruled` matches them against Sigma rules and emits alerts,
-- `correlated` joins alerts of several rules into correlation alerts, `indexd` indexes the stored
-- events, and `siemctl` is the analyst's command line over the stored hour directories. `ruled`
-- writes its alerts to stdout, which `correlated` reads, and to directories base/YYYY/MM/DD/HH,
-- which `siemctl` walks.
--
-- What models what:
-- - Prelude: texts as lists of code points, Boolean tests, lists, maps, decimal numbers, bits.
-- - Json, Yaml: the interfaces of the crates serde_json and serde_yaml, as records of operations
--   with the laws that the proofs use; Json/Sample is an instance of the former.
-- - Calendar: `bucket_from_epoch`, `days_to_date` and `is_leap` of src/ruled/src/output.rs, of which
--   src/correlated/src/output.rs holds a copy. Calendar/Months and Calendar/Days are its proofs.
-- - Correlated/Config, Correlated/Chain, Correlated/Engine, Correlated/Pipeline:
--   src/correlated/src/config.rs, `ChainState` and `CrossRuleEngine` of
--   src/correlated/src/correlation.rs, and src/correlated/src/output.rs with src/correlated/src/main.rs.
-- - Ruled/Suppress and its children: src/ruled/src/suppress.rs (Cidr, Condition, Lexer, Parser, and
--   Rules for `SuppressSet` and `load`).
-- - Ruled/Sigma and its children: src/ruled/src/rules.rs (Glob, Condition, Rule, Loading).
-- - Ruled/Router, Ruled/Pipeline: src/ruled/src/output.rs and the loop of src/ruled/src/main.rs.
-- - Siemctl/Time, Siemctl/RawFile, Siemctl/Window: `HourBucket` and the directory walk, timestamps
--   and `raw_file` bounds, windows and durations of src/siemctl/src/time.rs.
-- - Siemctl/Db: `MatchMode` and the CIDR test of src/siemctl/src/db.rs.
-- - Siemctl/Query and its children: src/siemctl/src/query.rs (Syntax, Lexer, Parser, Compile for
--   `to_sql`, Eval for `eval_json`), which `siemctl search` and `siemctl alerts` use.
-- - Siemctl/Acks: the acknowledged alerts of src/siemctl/src/alerts.rs.
-- - Siemctl/Render: the renderer of src/siemctl/src/render.rs.
-- - Siemctl/Db/RawLine: `resolve_raw_line` of src/siemctl/src/db.rs.
-- - Bytes: `BufRead::read_line` with the decoding of UTF-8, as indexd and siemctl use it, and the byte
--   positions in a text that `parse_duration` of siemctl uses.
-- - Indexd/Parser, Indexd/Files, Indexd/Db, Indexd/Bucket: `parse_line` and `index_file` of
--   src/indexd/src/parser.rs, and `IndexDb` with `derive_bucket` of src/indexd/src/db.rs.
--   Indexd/Db/Transactions states what is assumed of the transactions of rusqlite.
-- - Normalized/Event, Normalized/Flat: the event, its source label, and the flat map with its JSON of
--   src/normalized/src/event.rs; Normalized/Flat/Reading is a reader of flat JSON, for the proofs.
-- - Normalized/Output: `OutputRouter::write` of src/normalized/src/output.rs.
-- The modules named Samples hold tests and the theorems at concrete inputs.
--
-- How the code is modelled. State is passed explicitly: an operation takes the record of the struct
-- and gives the new one. A `HashMap` is the function of its look-ups, since the code walks over
-- one only to close connections, in no particular order; a `BTreeMap` is a list sorted by key. `u64`,
-- `usize` and `i32` counters are natural
-- numbers that do not wrap, but for the age of a cache entry in `AlertRouter::emit`, which is written
-- with its wrap-around, and the 32-bit words of the CIDR test. The clock, the answers of the
-- operating system, the calls of the crate rusqlite and the parsers of the crates toml, serde_json and
-- serde_yaml are arguments, and so are Unicode lower-casing and the hours that the crate chrono counts
-- between two instants.
-- A position in a text counts characters where the code counts bytes: every such position that the
-- code computes lies beside an ASCII character, but for the one of `parse_duration`, which is modelled
-- in bytes, with the panic of `split_at` inside a character. The year of an hour bucket has no bound
-- where the code has `i32`. The year of a stored path is padded with zeros only, where chrono's `%Y`
-- puts a sign before the years outside 0 to 9999 too; the
-- theorems about written years ask for four digits.
--
-- Fuel. `lex` has one unit more than the text has characters, and each round takes a character. The
-- parsers of suppression conditions and of queries have four units for each token and four more:
-- between two tokens they make at most four calls. `parse_condition` of Sigma has one unit more than
-- characters, since each call is on a shorter text. The loop over the years has one unit more than
-- days, and the loop over the lines of a file one unit more than bytes.
--
-- Not modelled: the parsing of command lines, messages on stderr, the registration of signal
-- handlers, and so far the parsers and the main loop of `normalized`, the main loop of `indexd` and the
-- rest of `siemctl`.
pub mod Prelude
pub mod Bytes
pub mod Json
pub mod Yaml
pub mod Calendar
pub mod Correlated
pub mod Ruled
pub mod Siemctl
pub mod Indexd
pub mod Normalized
