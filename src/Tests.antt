-- ===== src/Tests.antt =====
-- Concrete runs of the theorems of each part.
pub mod Receiver
pub mod Capture
pub mod Library
pub mod Whole
pub mod Service
pub mod Decimal
pub mod Shown
pub mod App
pub mod Interleaved
