-- ===== src/Storage.antt =====
-- internal/storage: the partitions of the log, their indexes, and the queries on them.
pub mod Filter
pub mod Query
pub mod Index
pub mod Reader
pub mod Partition
