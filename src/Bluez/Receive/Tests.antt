-- ===== src/Bluez/Receive/Tests.antt =====
-- The receive thread with a chip that sends an event with every read.
use linux_ant_hal.Base.{
  ◌≡◌, ◌⊎◌, refl, true, false, none, [], ◌∷◌, arith, ℤ, pos, is_neg, get_or, ltb, if◌then◌else◌,
}
use linux_ant_hal.Os.{Os, Call, make_socket, poll_files, read_file, holds, enable_lock}
use linux_ant_hal.Bluez.Framing.{wl12xx}
use linux_ant_hal.Bluez.Socket.{create_hci_sock}
use linux_ant_hal.Bluez.Receive.{ant_hci_rx_thread}
use linux_ant_hal.Bluez.Receive.Delivery.{IsInEvent, rx_thread_bounds}
use linux_ant_hal.Bluez.Receive.Locks.{is_closing, rx_thread_releases}
use linux_ant_hal.Bluez.Sample.{linux_hci, chip_os, on}

rx_thread_releases_example :
    let (socket, _, _) = create_hci_sock chip_os on [] in
    let (r, _, t') = ant_hci_rx_thread chip_os linux_hci wl12xx false 2 2 on [] in
    (holds chip_os enable_lock t' ≡ false)
    × ((is_neg socket ≡ true) ⊎ ((r ≡ none) ⊎ (is_closing socket t' ≡ true)))
unfolding holds
rx_thread_releases_example =
    rx_thread_releases chip_os linux_hci wl12xx false 2 2 on [] enable_lock refl

-- An event of the WL12XX of 11 bytes, with a message of four; a read with less room returns nothing.
abbrev event_answer : Call → ℤ
event_answer make_socket = pos 5
event_answer (poll_files _ _) = pos 1
event_answer (read_file _ room) = if ltb room 11 then pos 0 else pos 11
event_answer _ = pos 0

abbrev event_os : Os
event_os = record chip_os {
  ret = λ t c. event_answer c;
  received =
      λ t j. get_or (4 ∷ 0xFF ∷ 8 ∷ 0x00 ∷ 0x05 ∷ 4 ∷ 0 ∷ 0x02 ∷ 0x4D ∷ 0x00 ∷ 0x3E ∷ []) j 0;
}

rx_thread_bounds_example :
    IsInEvent event_os linux_hci wl12xx
      (ant_hci_rx_thread event_os linux_hci wl12xx false 2 2 on []).2
rx_thread_bounds_example =
    rx_thread_bounds event_os linux_hci wl12xx false 2 2 on (λ u fd room n e. ground arith)
