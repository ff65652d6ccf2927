-- ===== src/Messages.antt =====
-- The message library under src/messages: data messages, pings and their helpers.
pub mod Data
pub mod Memory
pub mod Checksum
pub mod Masks
pub mod Sizes
pub mod Ping
pub mod Rmt
