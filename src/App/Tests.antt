-- ===== src/App/Tests.antt =====
-- The test application on the transport of src/vfs.
use linux_ant_hal.Base.{ℕ, ◌≡◌, refl, ◌≢◌, ◌↔◌, true, false, not, ◌||◌, none, List, [], ◌∷◌, arith}
use linux_ant_hal.Types.{ant_status_success, eq_ant}
use linux_ant_hal.Os.{Trace, etimedout}
use linux_ant_hal.Chardev.State.{Hal, data_channel, command_channel}
use linux_ant_hal.Chardev.Tx.{
  tx_message_length, tx_buffer, ant_tx_message_flowcontrol_none, ant_tx_message,
}
use linux_ant_hal.Chardev.Tx.Flow.{flowcontrol_wait_ends}
use linux_ant_hal.Chardev.Sample.{good_os, slow_os, off}
use linux_ant_hal.Client.{Library, chardev_library}
use linux_ant_hal.App.{ant_create, main}
use linux_ant_hal.App.Loop.{has_exit, main_returns}

abbrev lib : Library Hal
lib = chardev_library good_os 2 ("/dev/smd5" ∷ "/dev/smd6" ∷ []) false

abbrev silent_lib : Library Hal
silent_lib = chardev_library slow_os 2 ("/dev/smd5" ∷ "/dev/smd6" ∷ []) false

silent_returns :
    (len : ℕ) (mesg : List ℕ) (h : Hal) (t : Trace)
    → (silent_lib.ant_tx_message len mesg h t).0 ≢ none
unfolding ant_tx_message ant_tx_message_flowcontrol_none
silent_returns len mesg h t = ground (
  arith,
  flowcontrol_wait_ends slow_os 2 data_channel command_channel (tx_message_length len)
      (tx_buffer len mesg) h t 0 etimedout refl (omega arith),
)

main_returns_example : ((main silent_lib 9 8 (b'E' ∷ b'V' ∷ b'X' ∷ []) off []).0 ≢ none) ↔ (
    (not (eq_ant (ant_create silent_lib 9 8 off []).0 ant_status_success)
      || has_exit (b'E' ∷ b'V' ∷ b'X' ∷ []))
    ≡ true)
main_returns_example = main_returns silent_lib silent_returns 9 8 (b'E' ∷ b'V' ∷ b'X' ∷ []) off []
