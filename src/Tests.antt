-- ===== src/Tests.antt =====
-- Sample data, runs of the model on it, and the theorems at concrete inputs.
mod Wire
mod Store
mod Cluster
mod Info
mod Server
mod Status
mod Batch
mod Iterator
mod Reads
mod Giving
mod Client
mod Operation
mod Watch
mod Nodes
mod Importing
mod WriteBatch
mod Unary
mod Printing
