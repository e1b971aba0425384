-- ===== src/Runtime.antt =====
-- src/runtime/runtime.rs: the trustee.
pub mod Records
pub mod Visit
pub mod Pool
pub mod Worker
pub mod Handles
