-- ===== src/Lib.antt =====
-- Verification of the ANT radio hardware abstraction layer.
--
-- The library lets a client on Linux or Android switch an ANT radio chip on and off, reset it, send
-- messages to it and receive its messages. It exists once for each kind of transport to the chip:
-- character devices (src/vfs), those of a Bluetooth vendor library (src/bt-vendor_vfs), and
-- Bluetooth sockets of BlueZ (src/bluez_hci). All share the interface of
-- src/common/inc/ant_native.h and the types of src/common/inc/ant_types.h.
--
-- What is modelled, and where:
--
-- - Types: src/common/inc/ant_types.h, the radio states and status codes.
-- - Os: the calls of the operating system, with a monad that passes the state of the library and
--   the trace of the calls; Os.Keeps has the rules for invariants. The system is a parameter of every definition that calls it, and its
--   answers may depend on the whole trace. It is not modelled: where a theorem needs that it
--   behaves in some way, a hypothesis of the theorem says so.
-- - Chardev: the transport over character devices. Chardev.State is the state of
--   src/vfs/inc/ant_rx_chardev.h; Chardev.Status is `ant_radio_enabled_status`; Chardev.Power is
--   `ant_enable` and `ant_disable`; Chardev.Radio has `ant_init`, `ant_deinit`, the callbacks,
--   `ant_enable_radio`, `ant_disable_radio`, `ant_radio_hard_reset` (src/vfs/ant_native_chardev.c)
--   and `doReset` (src/vfs/ant_rx_chardev.c); Chardev.Rx is `readChannelMsg` and `setFlowControl`
--   (src/vfs/ant_rx_chardev.c); Chardev.Thread is `fnRxThread` (src/vfs/ant_rx_chardev.c);
--   Chardev.Tx is `ant_tx_message` with its two ways to send
--   (src/vfs/ant_native_chardev.c). Function names are the source's, in lower case with
--   underscores. The drivers of src/vfs agree in the shape of a packet, one size byte and the
--   message, and have two paths.
-- - Bluez: the transport over BlueZ. Bluez.Bytes is src/common/ant_utils.c; Bluez.Framing is
--   src/bluez_hci/inc/ant_framing.h; Bluez.Socket is src/bluez_hci/ant_tx.c and
--   src/bluez_hci/inc/ant_hciutils.h; Bluez.Radio and Bluez.Message are
--   src/bluez_hci/ant_native_hci.c; Bluez.Receive is src/bluez_hci/ant_rx.c. The constants and the
--   layouts of bluetooth/hci.h and the external power library are parameters.
-- - BtVendor: the transport through the Bluetooth vendor library, as its uart driver configures it:
--   one path, and a byte for the type of the packet. BtVendor.State adds the vendor's interface to
--   the state of Chardev; BtVendor.Transport is `init_transport_bdroid`, BtVendor.Power
--   `ant_enable` and `ant_disable`, BtVendor.Radio the client's operations and `doReset`,
--   BtVendor.Tx `ant_tx_message` and `fnKeepAliveThread` (src/bt-vendor_vfs/ant_native_chardev.c,
--   src/bt-vendor_vfs/ant_rx_chardev.c) and BtVendor.Thread `fnRxThread`. A function whose text is
--   that of src/vfs is the one of Chardev on its part of the state (`on_hal`). BtVendor.Session is
--   about sequences of operations, as Chardev.Session is for src/vfs.
-- - Client: the functions of src/common/inc/ant_native.h as an interface, with the two character
--   device transports as its instances. App (app/ant_app.c) and Jni (src/common/JAntNative.cpp)
--   are clients of the interface.
-- - Base: the library names and the lemmas on lists and numbers that the others share.
--
-- Concurrency: Chardev.Concurrent and Chardev.FlowControl are step relations of threads that take
-- turns between the accesses of the state that they share (Chardev.Concurrent says which few
-- accesses are one step): the first for the lock of the
-- radio's state, any number of client threads and the receive threads, the second for the wait for
-- FLOW_GO. Chardev.Concurrent.Disable and Chardev.Concurrent.Enable relate the steps to the
-- functions of Chardev.Power. Elsewhere a function that holds a lock runs without interleaving. What other threads do while
-- `ant_tx_message_flowcontrol_wait` waits for its condition variable, and while `ant_enable` starts
-- the receive thread or the receive thread polls, is an answer of the system (`flow_resp`,
-- `keeps_running`).
--
-- Numbers: a byte, a length and an offset are natural numbers, with the wrap-around of an `ANT_U8`
-- written out where the code can reach it (`tx_message_length`). A descriptor and the result of a
-- call are integers.
--
-- Memory: where the code reads a byte that nothing has stored, the identifier of a message of fewer than
-- two bytes, the byte is an answer of the system (`stale`). `readChannelMsg` moves the bytes of a packet
-- that has not arrived in full to the start of the row by `memcpy`; where source and target overlap C
-- leaves the result open, and the model takes a copy from the front.
--
-- In Bluez the receive thread is modelled by itself, not beside a client's call.
--
-- Fuel: the loop over the packets in a buffer starts with one round more than there are bytes,
-- which is enough, since every round passes at least one byte. The loops that only the system ends,
-- a read repeated on EAGAIN and the wait for FLOW_GO, have a parameter for the number of rounds,
-- and end with any number that exceeds the number of failed attempts. The loops of the BlueZ
-- transport take such a number too; ten rounds are enough for a command that the chip refuses.
--
-- Not modelled: logging; the version string; the branches for drivers with an opcode byte, of which
-- there is none; resending, which no driver asks for. The vendor library and the Java virtual
-- machine are not part of the repository: their functions are calls of the system.
pub mod Base
pub mod Bluez
pub mod BtVendor
pub mod Client
pub mod App
pub mod Jni
pub mod Types
pub mod Os
pub mod Chardev
