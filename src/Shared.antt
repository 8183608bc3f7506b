-- ===== src/Shared.antt =====
-- The code that the client library and the server share: shared/global-const.h,
-- shared/common.c and the message structures of shared/server-msg.h.
pub mod Codes
pub mod Hex
pub mod Wire
pub mod Messages
