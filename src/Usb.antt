-- ===== src/Usb.antt =====
-- The sync over the local network: src/usb.
pub mod LanHost
pub mod LanClient
pub mod Together
