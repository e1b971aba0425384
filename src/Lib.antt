-- ===== src/Lib.antt =====
-- A model of the trust-tee library (Rust): a property that one trustee thread owns, and handles whose
-- operations run closures on it, on the caller's thread or by delegation.
--
-- The parts, and how they interact. A client of a remote trust (src/trust/remote.rs) encodes a closure
-- into the request slot of its channel (src/runtime/serialization.rs, src/runtime/slots.rs), flips the
-- ready bit of the request word, and polls the response word. The worker (src/runtime/runtime.rs)
-- takes up registrations, visits its clients in turn, executes the records of each request, and
-- stores the response word; a launch is handed to a fiber, which answers later.
--
--   Prelude        names, lists and tests over the native numbers, bit operations; no code
--   Memory         memory as a function from addresses to bytes; little-endian numbers; `Repr`, the
--                  representation of a user's type, with the law that a value is read back
--   Outcome        panics as values
--   Bincode        the serializer of the bincode crate, a parameter: what it serialized is read back
--   Slots          src/runtime/slots.rs: header words, `next_boundary_offset`, record headers, `ChannelPair`
--   Serialization  src/runtime/serialization.rs: `SlotWriter`, `encode_closure`, `decode_and_call`
--   Closures       what closures do to the property, and the vtables that the compiler generates
--   Runtime        src/runtime/runtime.rs: Records (the match on the property word and the record loop),
--                  Visit (one client, and the jobs of fibers), Pool (the fibers, their pool and their
--                  shutdown), Worker (the loop), Handles (spawn, entrust, clone, drop,
--                  the count of the owners, and the start of the worker)
--   Channel        the loop in which a client waits, over a list of events
--   System         src/runtime/runtime.rs and src/trust/remote.rs together: the worker, its fibers and all
--                  clients as a relation of steps, what one client sees of it (View, Seen, Watched, Visited, Steps, Calls), what
--                  closures keep true of the property (Data), and the order in which calls run (Log)
--   Remote         src/trust/remote.rs: Client (what the operations share), Operations (one function
--                  for each), and the theorems: Post, Delegate, Executes, and one module per operation
--   Local          src/trust/local.rs, and its agreement with Remote
--   Trust          src/trust/common.rs: the operations of a trust and, apart, what a client relies on, the
--                  wrapper, both trusts as implementations, and what they print
--   Latch          src/single_thread/latch.rs and src/single_thread/launch.rs
--   Util           src/util/wait.rs, src/util/thread_id.rs, src/util/affinity.rs,
--                  src/util/latch.rs (CondLatch), and the mark of src/util/fiber.rs
--   Programs       src/examples/remote_simple.rs (Counter) and src/examples/remote_complex.rs (Bank): their
--                  operations and closures, served by a trustee; the recursive calls of
--                  src/examples/recursive_apply.rs (Recursion); src/examples/local_trustee.rs and
--                  src/examples/latch.rs (Locals). Whether a build checks overflow is an argument
--   Examples       concrete data, and the theorems applied to it
--
-- State and operations. Shared memory is passed explicitly: an operation takes a `Link` (the client's
-- view of its channel, of the property, of the jobs of its launches, and of whether the worker runs)
-- and returns it. `&mut T` is a value that a closure takes and returns; a closure returns or panics
-- (`Ran`). A `u32` has its 32 bits and a `usize` its 64 bits, with wrap-around written out. The static
-- vtable at an address is given by a function (`VTables`), read at the type that the reader expects.
--
-- Loops and waiting. The record loop is recursion on the request count, the worker's round on the
-- number of clients, and a client waits over a list of events: the worker visits it, a fiber runs, other
-- clients change the property, or nothing happens. A result `none` is a client that still waits
-- when the events end; the theorems say at which event it is answered, so they hold for every list.
-- The steps of the whole system come from the same functions; System says how they are such events.
--
-- Not modelled: the memory order of the atomic operations (each load and store is one step of one memory),
-- the drop of values and the strong counts of shared objects other than the runtime, the alternate form of
-- `Debug`,
-- the values of `f64` (the operations of the bank are over an interface of which nothing is assumed) and the text of
-- its error messages, a response that is larger than its slot, which the source writes past the channel,
-- what a launched closure that waits does to the property before it goes on (a job is the rest of the closure),
-- what the operating system does with the system calls for pinning, and the substitute for fibers under
-- Miri (src/util/fiber.rs). A turn of the worker, with the
-- closure that it calls, is one step; a fiber's job is another. Of the benchmarks, the tests and the other
-- examples nothing is modelled: they print and measure.
pub mod Prelude
pub mod Memory
pub mod Outcome
pub mod Bincode
pub mod Slots
pub mod Serialization
pub mod Closures
pub mod Runtime
pub mod Channel
pub mod System
pub mod Remote
pub mod Local
pub mod Trust
pub mod Latch
pub mod Util
pub mod Programs
mod Examples
