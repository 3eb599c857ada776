-- ===== src/Chardev/Session/Tests.antt =====
-- A session that switches on, sends, loses its chip and switches off.
use linux_ant_hal.Base.{◌≡◌, refl, true, ◌⊎◌, some, List, [], ◌∷◌, arith}
use linux_ant_hal.Types.{radio_status_enabled, radio_status_disabled, radio_status_disabling}
use linux_ant_hal.Os.{M, ◌>>◌, told}
use linux_ant_hal.Chardev.Status.{ant_radio_enabled_status, count_open}
use linux_ant_hal.Chardev.Radio.{
  ant_init, ant_channel_init, set_ant_state_callback, notify, power_up, ant_enable_radio,
}
use linux_ant_hal.Chardev.Power.{
  enable_channels, ant_enable_channel, start_rx_thread, enable_out, ant_enable,
}
use linux_ant_hal.Chardev.State.{Hal}
use linux_ant_hal.Chardev.Session.{
  Operation, enables, disables, transmits, resets, stops, cleans_up, sets_state_callback, run,
  run_all, session_status,
}
use linux_ant_hal.Chardev.Session.Told.{session, last_on, session-told}
use linux_ant_hal.Chardev.Sample.{good_os, message, off}

abbrev some_operations : List Operation
some_operations =
    sets_state_callback (some 8)
    ∷ enables
    ∷ transmits 2 4 message
    ∷ resets
    ∷ stops
    ∷ cleans_up
    ∷ disables
    ∷ []

session_status_example :
    let (_, h', _) =
      (ant_init good_os ("/dev/smd5" ∷ "/dev/smd6" ∷ []) >> run_all good_os some_operations) off
        [] in
    (ant_radio_enabled_status h' ≡ radio_status_enabled)
    ⊎ ((ant_radio_enabled_status h' ≡ radio_status_disabled)
        ⊎ (ant_radio_enabled_status h' ≡ radio_status_disabling))
session_status_example =
    session_status good_os ("/dev/smd5" ∷ "/dev/smd6" ∷ []) some_operations off []
      (λ u. omega arith)

abbrev switched_on : M Hal (Unit {0})
switched_on = session good_os ("/dev/smd5" ∷ "/dev/smd6" ∷ []) 8 (enables ∷ [])

session-told_example : last_on (told (switched_on off []).2) ≡ true
unfolding run_all run ant_init ant_channel_init set_ant_state_callback ant_enable_radio power_up
    notify ant_radio_enabled_status count_open enable_channels ant_enable_channel start_rx_thread
    enable_out ant_enable
session-told_example =
    session-told good_os ("/dev/smd5" ∷ "/dev/smd6" ∷ []) 8 (enables ∷ []) off [] (λ u. omega arith)
      (λ u. refl) (refl, tt) refl
