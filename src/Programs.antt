-- ===== src/Programs.antt =====
-- src/examples: programs that use the library.
pub mod HashMap
pub mod Double
pub mod Bank
pub mod Counter
pub mod Recursion
pub mod Locals
