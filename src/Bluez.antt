-- ===== src/Bluez.antt =====
-- The transport over Bluetooth sockets: src/bluez_hci.
pub mod Bytes
pub mod Framing
pub mod State
pub mod Socket
pub mod Radio
pub mod Message
pub mod Receive
pub mod Sample
mod Tests
