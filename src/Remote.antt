-- ===== src/Remote.antt =====
-- src/trust/remote.rs: the client of a remote trustee.
pub mod Client
pub mod Operations
pub mod Post
pub mod Delegate
pub mod Executes
pub mod Linearize
pub mod Arguments
pub mod Batches
pub mod Moves
pub mod Guards
pub mod Ended
pub mod Launches
