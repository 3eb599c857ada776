-- ===== src/Chardev/Tx.antt =====
-- src/vfs/ant_native_chardev.c: `ant_tx_message` and the two ways to send, with and without waiting
-- for the chip to let the next message go.
pub mod Frame
pub mod Flow
pub mod Message
pub mod Walk
mod Tests
use linux_ant_hal.Base.{
  ℕ, zero, suc, ◌+◌, ◌-◌, ◌%◌, Bool, true, false, not, ◌||◌, Option, none, some, List, [], ◌∷◌, ℤ,
  pos, is_neg, is_zero, eq_ℤ, get_or, take, ◌==◌, if◌then◌else◌,
}
use linux_ant_hal.Types.{
  AntStatus, ant_status_success, ant_status_failed, ant_status_hardware_err,
  ant_status_failed_bt_not_initialized, radio_status_enabled, eq_radio,
}
use linux_ant_hal.Os.{
  Os, Errno, etimedout, M, ◌>>=◌, ◌>>◌, pure, get, modify, after, call, tell, flow_control_lock,
  lock, unlock, cond_timedwait, write_file, get_time,
}
use linux_ant_hal.Chardev.State.{
  Channel, Hal, channel_at, set_flow_resp, single_channel, data_channel, command_channel,
  ant_hci_header_size, ant_msg_id_offset, ant_flow_go, ant_flow_stop,
}
use linux_ant_hal.Chardev.Status.{ant_radio_enabled_status}

-- the `switch` on the message identifier: the messages that carry data
unfoldable pub is_data_id : ℕ → Bool
is_data_id id =
    id == 0x4E
    || (id == 0x4F || (id == 0x50 || (id == 0x5D || (id == 0x5E || (id == 0x5F || id == 0x72)))))

-- `ANT_U8 txMessageLength = ucLen + ANT_HCI_HEADER_SIZE`
pub tx_message_length : ℕ → ℕ
tx_message_length len = (len + ant_hci_header_size) % 256

-- `txBuffer`: the size byte and the message
pub tx_buffer : ℕ → List ℕ → List ℕ
tx_buffer len mesg = len ∷ take len mesg

-- what a wait that failed makes of the result
pub wait_status : Errno → AntStatus
wait_status etimedout = ant_status_hardware_err
wait_status _ = ant_status_failed

-- what follows a wait
unfoldable pub waited : M Hal (Option AntStatus) → Option Errno → M Hal (Option AntStatus)
waited again none = again
waited again (some e) = pure (some (wait_status e))

-- The label `wait_error`; a wait that has not ended still holds the lock.
unfoldable pub wait_done : Option AntStatus → M Hal (Option AntStatus)
wait_done none = pure none
wait_done (some status) = do tell (unlock flow_control_lock); pure (some status)

module _ (os : Os) where
  -- The loop that waits for FLOW_GO. While the thread waits, the lock is free and the receive thread
  -- may set the flag. `none` is a wait that has not ended with the fuel.
  unfoldable pub wait_flow_go : ℕ → ℕ → M Hal (Option AntStatus)
  wait_flow_go zero path = pure none
  wait_flow_go (suc fuel) path =
      let again = wait_flow_go fuel path in
      do
        h ← get
        if (channel_at h path).flow_control_resp == ant_flow_go
            then pure (some ant_status_success)
            else do
              tell cond_timedwait
              resp ← after os.flow_resp
              modify (set_flow_resp path (resp (channel_at h path).flow_control_resp))
              e ← after os.wait_error
              waited again e

  -- `ant_tx_message_flowcontrol_wait` once the lock is held and the message is written
  unfoldable pub written : ℕ → ℕ → ℕ → ℤ → M Hal (Option AntStatus)
  written fuel path len r =
      if is_neg r
      then pure (some ant_status_failed)
      else if not (eq_ℤ r (pos len))
      then pure (some ant_status_failed)
      else do tell get_time; wait_flow_go fuel path

  unfoldable pub ant_tx_message_flowcontrol_wait : ℕ → ℕ → ℕ → ℕ → List ℕ → M Hal (Option AntStatus)
  ant_tx_message_flowcontrol_wait fuel tx_path flow_path len buffer = do
    r ← call os (lock flow_control_lock)
    if not (is_zero r) then pure (some ant_status_failed) else do
      modify (set_flow_resp flow_path ant_flow_stop)
      h ← get
      n ← call os (write_file (channel_at h tx_path).fd (take len buffer))
      status ← written fuel flow_path len n
      wait_done status

  unfoldable pub ant_tx_message_flowcontrol_none : ℕ → ℕ → List ℕ → M Hal AntStatus
  ant_tx_message_flowcontrol_none tx_path len buffer = do
    h ← get
    n ← call os (write_file (channel_at h tx_path).fd (take len buffer))
    pure (
        if is_neg n
        then ant_status_failed
        else if not (eq_ℤ n (pos len))
        then ant_status_failed
        else ant_status_success)

  -- `ant_tx_message`, with two paths to the chip. It looks at the identifier whatever the length is.
  unfoldable pub ant_tx_message : ℕ → ℕ → List ℕ → M Hal (Option AntStatus)
  ant_tx_message fuel len mesg = do
    h ← get
    stale ← after os.stale
    if not (eq_radio (ant_radio_enabled_status h) radio_status_enabled)
        then pure (some ant_status_failed_bt_not_initialized)
        else if is_data_id (get_or mesg ant_msg_id_offset stale)
        then ant_tx_message_flowcontrol_wait fuel data_channel command_channel
            (tx_message_length len) (tx_buffer len mesg)
        else do
          status ←
              ant_tx_message_flowcontrol_none command_channel (tx_message_length len)
                (tx_buffer len mesg)
          pure (some status)

  -- `ant_tx_message` of a build without MULTIPATH_TX, with a single path to the chip
  pub ant_tx_message_single : ℕ → ℕ → List ℕ → M Hal (Option AntStatus)
  ant_tx_message_single fuel len mesg = do
    h ← get
    if not (eq_radio (ant_radio_enabled_status h) radio_status_enabled)
        then pure (some ant_status_failed_bt_not_initialized)
        else ant_tx_message_flowcontrol_wait fuel single_channel single_channel
            (tx_message_length len) (tx_buffer len mesg)

  -- the thread that sends KEEPALIVE_MESG
  fn_keep_alive_thread : ℕ → M Hal (Option AntStatus)
  fn_keep_alive_thread fuel = ant_tx_message fuel 3 (0x01 ∷ 0x00 ∷ 0x00 ∷ [])
