-- ===== src/Bluez/Message/Tests.antt =====
-- A message that the chip confirms.
use linux_ant_hal.Base.{ℕ, ◌≡◌, ◌≢◌, refl, true, false, none, List, [], ◌∷◌, arith, is_neg}
use linux_ant_hal.Os.{Call, Trace, tx_lock, lock, unlock}
use linux_ant_hal.Bluez.Bytes.{le_to_host16}
use linux_ant_hal.Bluez.Framing.{bcm433x, create_command_header}
use linux_ant_hal.Bluez.Socket.{
  create_hci_sock, ant_open_tx_transport, ant_close_tx_transport, wait_for_message, write_loop,
  write_data, read_answer, get_command_complete_result, command_complete_status,
}
use linux_ant_hal.Bluez.Radio.{get_and_set_radio_status}
use linux_ant_hal.Bluez.Message.{
  answered, answer_read, message_waited, rx_loop, answers_done, command_sent, tx_loop, finish, send,
  ant_tx_message,
}
use linux_ant_hal.Bluez.Message.Success.{IsConfirmed, tx_message-IsConfirmed}
use linux_ant_hal.Bluez.Message.Retries.{IsPlain, tx_message_ends}
use linux_ant_hal.Bluez.Sample.{chip_os, chip_answer, linux_hci, on}

abbrev request : List ℕ
request = 0x02 ∷ 0x4D ∷ 0x00 ∷ 0x3E ∷ []

answers-calm : (c : Call) → is_neg (chip_answer c) ≡ false
answers-calm c = ground arith

confirmation-IsPlain :
    (u : Trace)
    → IsPlain (
        command_complete_status linux_hci bcm433x
          (linux_hci.as_command_complete (chip_os.received u)))
unfolding command_complete_status le_to_host16
confirmation-IsPlain u = ground arith

tx_message_ends_example :
    (ant_tx_message chip_os linux_hci bcm433x true 10 4 request on []).0 ≢ none
tx_message_ends_example =
    tx_message_ends chip_os linux_hci bcm433x true 10 4 request on [] (λ u c. answers-calm c)
      confirmation-IsPlain (omega arith)

tx_message-IsConfirmed_example :
    let (_, h1, t1) = get_and_set_radio_status chip_os false on (lock tx_lock ∷ []) in
    let (socket, _, _) = ant_open_tx_transport chip_os linux_hci bcm433x h1 t1 in
    (u : Trace) × IsConfirmed chip_os linux_hci bcm433x socket u
    × ((ant_tx_message chip_os linux_hci bcm433x false 2 4 request on []).2
        ≡ unlock tx_lock ∷ (ant_close_tx_transport chip_os socket on u).2)
unfolding ant_tx_message send finish tx_loop command_sent answers_done rx_loop message_waited
    answer_read answered get_command_complete_result read_answer command_complete_status write_data
    write_loop create_command_header wait_for_message ant_open_tx_transport ant_close_tx_transport
    create_hci_sock get_and_set_radio_status le_to_host16
tx_message-IsConfirmed_example =
    tx_message-IsConfirmed chip_os linux_hci bcm433x false 2 4 request on [] refl
