-- ===== src/BtVendor.antt =====
-- The transport through the Bluetooth vendor library: src/bt-vendor_vfs.
pub mod State
pub mod Transport
pub mod Power
pub mod Radio
pub mod Tx
pub mod Thread
pub mod Session
mod Sample
mod Tests
