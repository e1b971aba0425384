-- ===== src/Util.antt =====
-- src/util: waiting, thread numbers, pinning, and the latch with a condition.
pub mod Wait
pub mod ThreadId
pub mod Affinity
pub mod CondLatch
pub mod Fiber
