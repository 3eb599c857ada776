-- ===== src/BtVendor/Tx.antt =====
-- src/bt-vendor_vfs/ant_native_chardev.c: `ant_tx_message`, which puts a byte for the type of the
-- packet before the size byte and sends all on the single path; and the keepalive message of
-- src/bt-vendor_vfs/ant_rx_chardev.c.
pub mod Message
mod Tests
use linux_ant_hal.Base.{ℕ, ◌+◌, ◌%◌, not, Option, some, List, [], ◌∷◌, get_or, take, if◌then◌else◌}
use linux_ant_hal.Types.{
  AntStatus, ant_status_failed_bt_not_initialized, radio_status_enabled, eq_radio,
}
use linux_ant_hal.Os.{Os, M, ◌>>=◌, pure, get, after}
use linux_ant_hal.Chardev.State.{single_channel, ant_hci_header_size, ant_msg_id_offset}
use linux_ant_hal.Chardev.Tx.{
  is_data_id, ant_tx_message_flowcontrol_wait as hal_wait,
  ant_tx_message_flowcontrol_none as hal_none,
}
use linux_ant_hal.BtVendor.State.{Vendor, on_hal}
use linux_ant_hal.BtVendor.Radio.{ant_radio_enabled_status}

abbrev pub hci_packet_type_size : ℕ
hci_packet_type_size = 1

abbrev pub ant_cmd_type_packet : ℕ
ant_cmd_type_packet = 0x0C

abbrev pub ant_data_type_packet : ℕ
ant_data_type_packet = 0x0E

-- `ANT_U8 txMessageLength = HCI_PACKET_TYPE_SIZE + ucLen + ANT_HCI_HEADER_SIZE`
pub tx_message_length : ℕ → ℕ
tx_message_length len = (hci_packet_type_size + len + ant_hci_header_size) % 256

-- `txBuffer`: the type of the packet, the size byte and the message
pub tx_buffer : ℕ → ℕ → List ℕ → List ℕ
tx_buffer type len mesg = type ∷ len ∷ take len mesg

module _ (os : Os) where
  abbrev pub ant_tx_message_flowcontrol_wait : ℕ → ℕ → ℕ → ℕ → List ℕ → M Vendor (Option AntStatus)
  ant_tx_message_flowcontrol_wait fuel tx_path flow_path len buffer =
      on_hal (hal_wait os fuel tx_path flow_path len buffer)

  abbrev pub ant_tx_message_flowcontrol_none : ℕ → ℕ → List ℕ → M Vendor AntStatus
  ant_tx_message_flowcontrol_none tx_path len buffer = on_hal (hal_none os tx_path len buffer)

  -- The identifier is looked at in `txBuffer`, which up to there holds only what was stored: the type of
  -- the packet is stored later, and of a message of fewer than two bytes there is no identifier.
  unfoldable pub ant_tx_message : ℕ → ℕ → List ℕ → M Vendor (Option AntStatus)
  ant_tx_message fuel len mesg = do
    v ← get
    stale ← after os.stale
    if not (eq_radio (ant_radio_enabled_status v) radio_status_enabled)
        then pure (some ant_status_failed_bt_not_initialized)
        else if is_data_id (
            get_or (tx_buffer stale len mesg)
              (hci_packet_type_size + ant_hci_header_size + ant_msg_id_offset) stale)
        then ant_tx_message_flowcontrol_wait fuel single_channel single_channel
            (tx_message_length len) (tx_buffer ant_data_type_packet len mesg)
        else do
          status ←
              ant_tx_message_flowcontrol_none single_channel (tx_message_length len)
                (tx_buffer ant_cmd_type_packet len mesg)
          pure (some status)

  -- the thread that sends KEEPALIVE_MESG
  pub fn_keep_alive_thread : ℕ → M Vendor (Option AntStatus)
  fn_keep_alive_thread fuel = ant_tx_message fuel 3 (0x01 ∷ 0x00 ∷ 0x00 ∷ [])
