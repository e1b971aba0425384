-- ===== src/Examples.antt =====
-- Concrete data and closures, and the theorems applied to them.
mod Data
mod Delegation
mod Slot
mod Requests
mod Service
mod Worker
mod Parts
mod FiberPool
mod Interleaving
mod Waiting
mod Starting
mod Owning
mod Programs
mod Recursing
mod Codes
mod Integers
mod Banks
