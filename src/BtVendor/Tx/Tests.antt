-- ===== src/BtVendor/Tx/Tests.antt =====
-- Messages of a working and of a wrapping length.
use linux_ant_hal.Base.{
  ℕ, ◌≡◌, refl, not, ◌&&◌, ◌||◌, [], ◌∷◌, ◌++◌, arith, take, pos, is_zero, get_or, if◌then◌else◌,
}
use linux_ant_hal.Types.{radio_status_enabled, eq_radio}
use linux_ant_hal.Os.{flow_control_lock, lock}
use linux_ant_hal.Chardev.State.{single_channel, channel_at}
use linux_ant_hal.Chardev.Status.{ant_radio_enabled_status as hal_status, count_open}
use linux_ant_hal.Chardev.Tx.{is_data_id, ant_tx_message_flowcontrol_none as hal_none}
use linux_ant_hal.Chardev.Tx.Message.{writes}
use linux_ant_hal.Chardev.Sample.{message}
use linux_ant_hal.BtVendor.Radio.{ant_radio_enabled_status}
use linux_ant_hal.BtVendor.Tx.{tx_message_length, tx_buffer, ant_tx_message, fn_keep_alive_thread}
use linux_ant_hal.BtVendor.Tx.Message.{vendor_tx_writes}
use linux_ant_hal.BtVendor.Sample.{vendor_os, vendor_on}

-- The keepalive message as it is written.
keep_alive_written :
    writes (fn_keep_alive_thread vendor_os 1 vendor_on []).2
    ≡ (pos 5, 0x0C ∷ 3 ∷ 0x01 ∷ 0x00 ∷ 0x00 ∷ []) ∷ []
unfolding fn_keep_alive_thread ant_tx_message hal_none hal_status count_open tx_message_length
    tx_buffer is_data_id writes
keep_alive_written = refl

vendor_tx_writes_example :
    let is_data = is_data_id (get_or message 1 0) in
    let type : ℕ = if is_data then 0x0E else 0x0C in
    let enabled = eq_radio (ant_radio_enabled_status vendor_on) radio_status_enabled in
    writes (ant_tx_message vendor_os 2 4 message vendor_on []).2 ≡ (
      if enabled && (not is_data || is_zero (vendor_os.ret [] (lock flow_control_lock)))
      then writes []
        ++ (((channel_at vendor_on.hal single_channel).fd, type ∷ 4 ∷ take 4 message) ∷ [])
      else writes [])
vendor_tx_writes_example =
    vendor_tx_writes vendor_os 2 4 message vendor_on [] (omega arith) (omega arith) (omega arith)
