-- ===== src/Engine.antt =====
-- internal/engine: topics and introspections of devices, the rows of accepted values, the batches
-- in which a shard writes them, and the path of a message to its op.
pub mod Topics
pub mod Introspection
pub mod Rows
pub mod Batch
pub mod Data
