-- ===== src/BtVendor/Tx/Message.antt =====
-- `ant_tx_message` of src/bt-vendor_vfs/ant_native_chardev.c: what it writes.
use linux_ant_hal.Base.{
  ◌≢◌, none, ℕ, ◌+◌, ◌%◌, ◌<◌, ◌≤◌, ◌≡◌, false, not, ◌&&◌, ◌||◌, some, List, [], ◌∷◌, ◌++◌, arith,
  length, take, length-take_of_le, pos, is_zero, get_or, if◌then◌else◌,
}
use linux_ant_hal.Types.{ant_status_success, radio_status_enabled, eq_radio}
use linux_ant_hal.Os.{Os, Trace, Mutex, flow_control_lock, lock, write_file, holds}
use linux_ant_hal.Chardev.State.{single_channel, channel_at}
use linux_ant_hal.Chardev.Tx.{is_data_id, ant_tx_message_flowcontrol_none as hal_none}
use linux_ant_hal.Chardev.Tx.Frame.{take_all, get_or-take}
use linux_ant_hal.Chardev.Tx.Flow.{flowcontrol_wait_releases}
use linux_ant_hal.Chardev.Tx.Message.{writes, flowcontrol_wait_writes}
use linux_ant_hal.BtVendor.State.{Vendor}
use linux_ant_hal.BtVendor.Radio.{ant_radio_enabled_status}
use linux_ant_hal.BtVendor.Tx.{
  ant_cmd_type_packet, ant_data_type_packet, tx_message_length, tx_buffer, ant_tx_message,
}

-- Up to 253 bytes the whole of the type, the size byte and the message are written.
vendor_packet :
    (type len : ℕ) (mesg : List ℕ)
    → len < 254
    → len ≤ length mesg
    → take (tx_message_length len) (tx_buffer type len mesg) ≡ type ∷ len ∷ take len mesg
unfolding tx_message_length tx_buffer
vendor_packet type len mesg h k =
    take_all (type ∷ len ∷ take len mesg) ((1 + len + 1) % 256)
      (omega (arith, length-take_of_le len mesg k))

-- Of a message of 2 to 253 bytes `ant_tx_message` makes one write to the single path: of a byte that
-- is 0x0E if the identifier is that of a data message and 0x0C otherwise, the size byte and the
-- message. It makes none if the radio is not enabled, or if a data message cannot get the lock.
pub vendor_tx_writes :
    (os : Os) (fuel len : ℕ) (mesg : List ℕ) (v : Vendor) (t : Trace)
    → 2 ≤ len
    → len < 254
    → len ≤ length mesg
    → let is_data = is_data_id (get_or mesg 1 0) in
      let type : ℕ = if is_data then 0x0E else 0x0C in
      let enabled = eq_radio (ant_radio_enabled_status v) radio_status_enabled in
      writes (ant_tx_message os fuel len mesg v t).2 ≡ (
        if enabled && (not is_data || is_zero (os.ret t (lock flow_control_lock)))
        then writes t ++ (((channel_at v.hal single_channel).fd, type ∷ len ∷ take len mesg) ∷ [])
        else writes t)
unfolding ant_tx_message tx_buffer hal_none writes
vendor_tx_writes os fuel len mesg v t has_id small fits = ground (
  arith,
  get_or-take mesg 1 len (os.stale t) 0 has_id fits,
  vendor_packet ant_cmd_type_packet len mesg small fits,
  vendor_packet ant_data_type_packet len mesg small fits,
  flowcontrol_wait_writes os fuel single_channel single_channel (tx_message_length len)
      (tx_buffer ant_data_type_packet len mesg) v.hal t,
)

-- A message of 254 bytes that is no data message is reported as sent by an enabled radio whose device
-- takes the write of no bytes: nothing of it is written.
pub vendor_tx_wraps :
    (os : Os) (fuel : ℕ) (mesg : List ℕ) (v : Vendor) (t : Trace)
    → ant_radio_enabled_status v ≡ radio_status_enabled
    → is_data_id (get_or (take 254 mesg) 1 (os.stale t)) ≡ false
    → os.ret t (write_file (channel_at v.hal single_channel).fd []) ≡ pos 0
    → ant_tx_message os fuel 254 mesg v t
      ≡ (some ant_status_success, v, write_file (channel_at v.hal single_channel).fd [] ∷ t)
unfolding ant_tx_message hal_none tx_message_length tx_buffer
vendor_tx_wraps os fuel mesg v t on command taken = ground arith

-- Whatever the length that fits in a byte, the bytes handed to the device are all in the part of
-- `txBuffer` that was filled, and what was filled fits in its 261 bytes.
pub vendor_tx_bounds :
    (type len : ℕ) (mesg : List ℕ)
    → len < 256
    → len ≤ length mesg
    → (tx_message_length len ≤ length (tx_buffer type len mesg))
      × (length (tx_buffer type len mesg) ≤ 261)
unfolding tx_message_length tx_buffer
vendor_tx_bounds type len mesg byte fits =
    (omega (arith, length-take_of_le len mesg fits), omega (arith, length-take_of_le len mesg fits))

-- An `ant_tx_message` that returns releases the lock on every path: called with no mutex of a kind
-- held, it returns with none of that kind held.
pub vendor_tx_releases :
    (os : Os) (fuel len : ℕ) (mesg : List ℕ) (v : Vendor) (t : Trace) (m : Mutex)
    → holds os m t ≡ false
    → (ant_tx_message os fuel len mesg v t).0 ≢ none
    → holds os m (ant_tx_message os fuel len mesg v t).2 ≡ false
unfolding ant_tx_message hal_none holds
vendor_tx_releases os fuel len mesg v t m free returns = ground (
  arith,
  flowcontrol_wait_releases os fuel single_channel single_channel (tx_message_length len)
      (tx_buffer ant_data_type_packet len mesg) v.hal t m free,
)
