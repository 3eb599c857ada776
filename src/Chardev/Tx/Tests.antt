-- ===== src/Chardev/Tx/Tests.antt =====
-- Sending, run on a command, on a data message that the chip lets through, on one that it does not,
-- and on the longest length.
use linux_ant_hal.Base.{
  ℕ, suc, zero, ◌≡◌, ◌&&◌, List, [], ◌∷◌, arith, is_zero, take, if◌then◌else◌, not, ◌||◌, ◌++◌,
  get_or,
}
use linux_ant_hal.Types.{radio_status_enabled, eq_radio}
use linux_ant_hal.Os.{flow_control_lock, lock}
use linux_ant_hal.Chardev.State.{channel_at, data_channel, command_channel}
use linux_ant_hal.Chardev.Status.{ant_radio_enabled_status}
use linux_ant_hal.Chardev.Rx.Frames.{Frames}
use linux_ant_hal.Chardev.Tx.{is_data_id, tx_message_length, tx_buffer, ant_tx_message}
use linux_ant_hal.Chardev.Tx.Frame.{tx_packet-Frames}
use linux_ant_hal.Chardev.Tx.Message.{writes, tx_message_writes}
use linux_ant_hal.Chardev.Sample.{good_os, message, on}

-- a data message, broadcast on channel 0
abbrev data_message : List ℕ
data_message = 0x02 ∷ 0x4E ∷ 0x00 ∷ 0x11 ∷ []

abbrev packet : List ℕ
packet = 4 ∷ data_message

tx_message_writes_example :
    let is_data = is_data_id (get_or data_message 1 (good_os.stale [])) in
    let path = if is_data then data_channel else command_channel in
    let enabled = eq_radio (ant_radio_enabled_status on) radio_status_enabled in
    writes (ant_tx_message good_os 2 4 data_message on []).2 ≡ (
      if enabled && (not is_data || is_zero (good_os.ret [] (lock flow_control_lock)))
      then writes [] ++ (((channel_at on path).fd, 4 ∷ take 4 data_message) ∷ [])
      else writes [])
tx_message_writes_example =
    tx_message_writes good_os 2 4 data_message on [] (omega arith) (omega arith)

-- a message of so many bytes
abbrev zeros : ℕ → List ℕ
zeros zero = []
zeros (suc n) = 0 ∷ zeros n

tx_packet-Frames_example :
    Frames (take (tx_message_length 4) (tx_buffer 4 message)) (take 4 message ∷ []) []
tx_packet-Frames_example = tx_packet-Frames 4 message (omega arith) (omega arith)
