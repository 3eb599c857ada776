-- ===== src/Jni/Transmit.antt =====
-- src/common/JAntNative.cpp on the library of src/vfs: what a call of `nativeJAnt_TxMessage` writes.
use Prim.Native.String.{String}
use linux_ant_hal.Base.{
  ℕ, ◌<◌, ◌≤◌, false, ◌%◌, ◌≡◌, Bool, not, ◌&&◌, ◌||◌, some, List, [], ◌∷◌, ◌++◌, arith, is_zero,
  length, get_or, if◌then◌else◌,
}
use linux_ant_hal.Types.{radio_status_enabled, eq_radio}
use linux_ant_hal.Os.{Os, Trace, lock, flow_control_lock, java, get_byte_array_elements}
use linux_ant_hal.Chardev.State.{Hal, channel_at, data_channel, command_channel}
use linux_ant_hal.Chardev.Status.{ant_radio_enabled_status}
use linux_ant_hal.Chardev.Tx.{is_data_id}
use linux_ant_hal.Chardev.Tx.Frame.{take_all, get_or_default}
use linux_ant_hal.Chardev.Tx.Message.{writes, tx_message_writes}
use linux_ant_hal.Client.{chardev_library}
use linux_ant_hal.Jni.{native_tx_message}

module _ (os : Os) (fuel : ℕ) (names : List String) (supported : Bool) where
  -- Of a Java array of 2 to 254 bytes, whose bytes the virtual machine gives out, one write is made, on the path that the identifier of the message
  -- asks for: its length and all its bytes. None is made if the radio is not enabled, or if a data
  -- message cannot get the lock.
  pub native_tx_writes :
      (msg : List ℕ) (h : Hal) (t : Trace)
      → 2 ≤ length msg
      → length msg < 255
      → is_zero (os.ret t (java get_byte_array_elements)) ≡ false
      → let is_data = is_data_id (get_or msg 1 0) in
        let path = if is_data then data_channel else command_channel in
        let enabled = eq_radio (ant_radio_enabled_status h) radio_status_enabled in
        let t0 = java get_byte_array_elements ∷ t in
        writes (native_tx_message (chardev_library os fuel names supported) os (some msg) h t).2 ≡ (
          if enabled && (not is_data || is_zero (os.ret t0 (lock flow_control_lock)))
          then writes t ++ (((channel_at h path).fd, length msg ∷ msg) ∷ [])
          else writes t)
  unfolding native_tx_message writes
  native_tx_writes msg h t has_id small given =
      let t0 = java get_byte_array_elements ∷ t in
      let short : length msg % 256 ≡ length msg = omega arith in
      ground (
        arith,
        short,
        get_or_default msg 1 (os.stale t0) 0 has_id,
        take_all msg (length msg) (omega arith),
        tx_message_writes os fuel (length msg) msg h t0 small (omega arith),
      )
