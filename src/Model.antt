-- ===== src/Model.antt =====
-- The server's data model, server/Model. An object behind a `QSharedPointer` stands in a list of
-- objects, and a pointer to it is its position there, so that two lists can share an object.
pub mod Records
pub mod Objects
pub mod Operations
pub mod Threads
pub mod Usage
pub mod Stats
pub mod Symbols
