-- ===== src/Server.antt =====
-- A node of the cluster (src/server): its shards, its calls, and the migration of a shard.
pub mod Shard
pub mod Calls
pub mod Migrate
pub mod Batch
pub mod Iterator
pub mod Responses
pub mod Giving
pub mod Importing
