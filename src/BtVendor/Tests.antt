-- ===== src/BtVendor/Tests.antt =====
-- Sessions with the vendor library, and the receive thread.
use linux_ant_hal.Base.{◌≡◌, refl, ◌⊎◌, true, false, some, List, [], ◌∷◌, All, length}
use linux_ant_hal.Os.{◌>>◌, holds, enabled_status_lock}
use linux_ant_hal.Chardev.Status.{IsClosed}
use linux_ant_hal.Chardev.Thread.{Buffers}
use linux_ant_hal.Chardev.Sample.{message}
use linux_ant_hal.BtVendor.Power.Chip.{powered}
use linux_ant_hal.BtVendor.Radio.{ant_init}
use linux_ant_hal.BtVendor.Session.{
  Operation, enables, disables, sets_state_callback, transmits, resets, run_all,
}
use linux_ant_hal.BtVendor.Session.Power.{session-IsPowered}
use linux_ant_hal.BtVendor.Session.Locks.{session_releases}
use linux_ant_hal.BtVendor.Sample.{vendor_os, vendor_off}

abbrev some_operations : List Operation
some_operations =
    sets_state_callback (some 8) ∷ enables ∷ transmits 2 4 message ∷ resets ∷ disables ∷ []

abbrev no_bytes : Buffers
no_bytes i = record { bytes = λ j. 0; length = 0 }

session-IsPowered_example :
    let (_, v', t') =
      (ant_init vendor_os ("/dev/ttyHS0" ∷ []) >> run_all vendor_os some_operations) vendor_off
        [] in
    (length v'.hal.channels ≡ 1)
    × (All IsClosed v'.hal.channels
        ⊎ ((v'.vendor_interface ≡ true) × (powered vendor_os t' ≡ true)))
session-IsPowered_example = session-IsPowered vendor_os "/dev/ttyHS0" some_operations vendor_off []

session_releases_example :
    holds vendor_os enabled_status_lock (run_all vendor_os some_operations vendor_off []).2 ≡ false
unfolding holds
session_releases_example =
    session_releases vendor_os enabled_status_lock some_operations vendor_off [] refl refl
