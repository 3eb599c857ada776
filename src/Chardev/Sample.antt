-- ===== src/Chardev/Sample.antt =====
-- A system in which every call succeeds, and states of the transport, for the tests.
use linux_ant_hal.Base.{
  ℕ, true, false, none, some, List, [], ◌∷◌, ℤ, pos, minus_one, length, get_or, ltb, if◌then◌else◌,
}
use linux_ant_hal.Os.{Os, Call, etimedout, other_error, open_file, write_file, lock}
use linux_ant_hal.Chardev.State.{Channel, Hal}

abbrev pub good_answer : Call → ℤ
good_answer (open_file _) = pos 5
good_answer (write_file _ bytes) = pos (length bytes)
good_answer _ = pos 0

-- The receive thread sets FLOW_GO during the first wait.
abbrev pub good_os : Os
good_os = record {
  ret = λ t c. good_answer c;
  errno = λ t. other_error;
  received = λ t j. 0;
  thread = λ t. 7;
  wait_error = λ t. none;
  flow_resp = λ t v. 0;
  keeps_running = λ t. true;
  revents = λ t i f. false;
  stale = λ t. 0;
  vendor_fd = λ t. pos 5;
}

-- No flow control message comes, and every wait runs into its timeout.
abbrev pub slow_os : Os
slow_os = record good_os { wait_error = λ t. some etimedout; flow_resp = λ t v. v }

-- Every `lock` fails with an error number.
abbrev pub lockless_answer : Call → ℤ
lockless_answer (lock _) = pos 22
lockless_answer (open_file _) = pos 5
lockless_answer _ = pos 0

abbrev pub lockless_os : Os
lockless_os = record good_os { ret = λ t c. lockless_answer c }

-- No device can be opened.
abbrev pub deviceless_answer : Call → ℤ
deviceless_answer (open_file _) = minus_one
deviceless_answer _ = pos 0

abbrev pub deviceless_os : Os
deviceless_os = record good_os { ret = λ t c. deviceless_answer c }

abbrev pub message : List ℕ
message = 0x02 ∷ 0x4D ∷ 0x00 ∷ 0x3E ∷ []

-- The device hands over the packet of `message` in reads of three and of two bytes.
abbrev pub part : ℕ → List ℕ
part n = if ltb n 2 then 4 ∷ 0x02 ∷ 0x4D ∷ [] else 0x00 ∷ 0x3E ∷ []

abbrev pub device_os : Os
device_os = record good_os {
  ret = λ t c. if ltb (length t) 1 then pos 3 else pos 2;
  received = λ t j. get_or (part (length t)) j 0;
}

abbrev pub closed_channel : Channel
closed_channel = record {
  device_path = "/dev/smd5";
  fd = minus_one;
  rx_callback = some 9;
  flow_control_resp = 0;
}

abbrev pub open_channel : Channel
open_channel = record closed_channel { fd = pos 5 }

abbrev pub off : Hal
off = record {
  rx_thread = 0;
  run_thread = false;
  chip_resetting = false;
  channels = closed_channel ∷ closed_channel ∷ [];
  rx_shutdown_event_fd = pos 3;
  waiting_for_keepalive_response = false;
  state_callback = some 8;
}

abbrev pub on : Hal
on = record off { rx_thread = 7; run_thread = true; channels = open_channel ∷ open_channel ∷ [] }
