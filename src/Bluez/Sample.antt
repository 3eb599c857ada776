-- ===== src/Bluez/Sample.antt =====
-- A chip that confirms every command, on BlueZ as it is on Linux, and states of the transport, for
-- the tests.
use linux_ant_hal.Base.{
  ℕ, zero, suc, ◌+◌, false, true, none, some, List, [], ◌∷◌, ℤ, pos, minus_one, length, get_or,
}
use linux_ant_hal.Types.{radio_status_disabled, radio_status_enabled}
use linux_ant_hal.Os.{
  Os, Call, Trace, other_error, make_socket, poll_files, read_file, write_file, state_callback,
  power_is_enabled,
}
use linux_ant_hal.Bluez.Framing.{Hci, EventPacket}
use linux_ant_hal.Bluez.State.{Radio}

abbrev pub bytes_at : (ℕ → ℕ) → ℕ → ℕ → List ℕ
bytes_at buf i zero = []
bytes_at buf i (suc n) = buf i ∷ bytes_at buf (i + 1) n

abbrev pub linux_hci : Hci
linux_hci = record {
  hci_command_pkt = 1;
  hci_event_pkt = 4;
  evt_vendor = 0xFF;
  evt_cmd_complete = 0x0E;
  hci_unspecified_error = 0x1F;
  hci_max_event_size = 260;
  hci_event_header_overhead = 3;
  command_complete_size = 7;
  htobs = λ n. n;
  to_plen = λ n. n;
  header_bytes = λ c. c.packet_type ∷ 0xEC ∷ 0xFC ∷ c.plen ∷ c.vendor_header ∷ [];
  as_event_packet = λ buf. record {
    packet_type = buf 0;
    evt = buf 1;
    plen = buf 2;
    vendor = bytes_at buf 3 (buf 2);
  };
  as_command_complete = λ buf. record {
    packet_type = buf 0;
    evt = buf 1;
    opcode = bytes_at buf 4 2;
    response = buf 6;
  };
}

-- a command complete packet of the BCM433X that says success
abbrev pub confirmation : List ℕ
confirmation = 4 ∷ 0x0E ∷ 4 ∷ 1 ∷ 0xEC ∷ 0xFC ∷ 0 ∷ []

abbrev pub chip_answer : Call → ℤ
chip_answer make_socket = pos 5
chip_answer (poll_files _ _) = pos 1
chip_answer (read_file _ _) = pos 7
chip_answer (write_file _ bytes) = pos (length bytes)
chip_answer power_is_enabled = pos 1
chip_answer _ = pos 0

abbrev pub chip_os : Os
chip_os = record {
  ret = λ t c. chip_answer c;
  errno = λ t. other_error;
  received = λ t j. get_or confirmation j 0;
  thread = λ t. 7;
  wait_error = λ t. none;
  flow_resp = λ t v. 0;
  keeps_running = λ t. true;
  revents = λ t i f. false;
  stale = λ t. 0;
  vendor_fd = λ t. pos 5;
}

abbrev pub off : Radio
off = record {
  radio_status = radio_status_disabled;
  thread = 0;
  rx_callback = some 9;
  state_callback = some 8;
  ant_cmd_socket = minus_one;
}

abbrev pub on : Radio
on = record off { radio_status = radio_status_enabled; thread = 7 }

-- The client was told of DISABLED.
abbrev pub told_off : Trace
told_off = state_callback 8 radio_status_disabled ∷ []

-- a vendor's event of the WL12XX with a message of four bytes
abbrev pub event : EventPacket
event = record {
  packet_type = 4;
  evt = 0xFF;
  plen = 8;
  vendor = 0x00 ∷ 0x05 ∷ 4 ∷ 0 ∷ 0x02 ∷ 0x4D ∷ 0x00 ∷ 0x3E ∷ [];
}
