-- ===== src/Server.antt =====
-- The server's reception thread, server/Server/MemOpRcptServer.cpp, and its handler interface.
pub mod Handler
pub mod Process
pub mod Reader
pub mod Service
