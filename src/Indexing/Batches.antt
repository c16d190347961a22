-- ===== src/Indexing/Batches.antt =====
-- Which chunks an indexing job hands on (crates/cca-daemon/src/indexing.rs).
use cca.Common.{List}
