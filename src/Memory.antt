-- ===== src/Memory.antt =====
-- What the program relies on of the Rust language: memory as bytes, little-endian numbers, the
-- representation of a value of a type, panics. No code of the repository stands here.
mod Laws
mod Numbers
unfoldable pub use Laws.*
unfoldable pub use Numbers.*
