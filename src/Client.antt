-- ===== src/Client.antt =====
-- The client library, lib: what it sends to the server, and how.
pub mod Comm
pub mod Cache
pub mod Symbols
pub mod Make
pub mod Wrapper
pub mod Calls
pub mod Interleaved
pub mod Threads
