-- ===== src/Controller.antt =====
-- The server's controller, server/GUIController/QApplicationWindowController.cpp: what it records
-- of a capture, and what it shows.
pub mod ThreadStore
pub mod OperationStore
pub mod Counters
pub mod State
pub mod Events
pub mod Accounting
pub mod Delivery
pub mod Tracking
pub mod Filter
pub mod App
pub mod Table
pub mod Form
pub mod Chart
pub mod Update
pub mod Details
