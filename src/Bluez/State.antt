-- ===== src/Bluez/State.antt =====
-- src/bluez_hci/ant_native_hci.c, src/bluez_hci/inc/ant_rx.h: the state that the transport keeps.
use linux_ant_hal.Base.{ℕ, Option, ℤ, Bool, true, false}
use linux_ant_hal.Types.{RadioStatus}
use linux_ant_hal.Os.{Errno, eagain, eintr}

-- `radio_status`, `RxParams` and `g_ant_cmd_socket`. A thread of 0 is none.
pub record Radio : Type 0 where
  pub radio_status : RadioStatus
  pub thread : ℕ
  pub rx_callback : Option ℕ
  pub state_callback : Option ℕ
  pub ant_cmd_socket : ℤ

-- `errno == EAGAIN || errno == EINTR`
abbrev pub asks_again : Errno → Bool
asks_again eagain = true
asks_again eintr = true
asks_again _ = false
