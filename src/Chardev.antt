-- ===== src/Chardev.antt =====
-- The transport over character devices: src/vfs.
pub mod State
pub mod Status
pub mod Power
pub mod Radio
pub mod Rx
pub mod Tx
pub mod Thread
pub mod Sample
pub mod Session
pub mod Concurrent
pub mod FlowControl
