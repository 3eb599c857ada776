-- ===== src/Chardev/Radio/Tests.antt =====
-- The operations on the radio, run where every call succeeds, where the lock cannot be had, and
-- where the device cannot be opened.
use linux_ant_hal.Base.{refl, ◌≡◌, ◌⊎◌, true, false, [], ◌∷◌, arith, if◌then◌else◌}
use linux_ant_hal.Types.{
  radio_status_disabled, radio_status_enabled, radio_status_resetting, radio_status_reset,
  ant_status_success, eq_ant,
}
use linux_ant_hal.Os.{told}
use linux_ant_hal.Chardev.Status.{count_open, ant_radio_enabled_status}
use linux_ant_hal.Chardev.Power.{
  enable_channels, ant_enable_channel, start_rx_thread, enable_out, ant_enable, disable_channels,
  ant_disable_channel, close_channels, disable_out, ant_disable,
}
use linux_ant_hal.Chardev.Radio.{notify, power_up, ant_enable_radio, ant_radio_hard_reset, do_reset}
use linux_ant_hal.Chardev.Radio.Enable.{enable_radio_success}
use linux_ant_hal.Chardev.Radio.Reset.{hard_reset_success, hard_reset_told, do_reset-told}
use linux_ant_hal.Chardev.Sample.{good_os, off, on}

enable_radio_success_example :
    ant_radio_enabled_status (ant_enable_radio good_os off []).1 ≡ radio_status_enabled
unfolding ant_enable_radio power_up notify ant_radio_enabled_status count_open enable_channels
    ant_enable_channel start_rx_thread enable_out ant_enable disable_channels ant_disable_channel
    close_channels disable_out ant_disable
enable_radio_success_example = enable_radio_success good_os off [] (λ u. omega arith) refl refl

hard_reset_success_example :
    ant_radio_enabled_status (ant_radio_hard_reset good_os true on []).1 ≡ radio_status_enabled
unfolding ant_radio_hard_reset notify enable_channels ant_enable_channel start_rx_thread enable_out
    ant_enable disable_channels ant_disable_channel close_channels disable_out ant_disable
hard_reset_success_example = hard_reset_success good_os on [] (λ u. omega arith) refl

hard_reset_told_example :
    let (r, _, t') = ant_radio_hard_reset good_os true on [] in
    told t'
    ≡ (if eq_ant r ant_status_success then radio_status_reset else radio_status_disabled)
      ∷ radio_status_resetting
      ∷ told []
hard_reset_told_example = hard_reset_told good_os 8 on [] refl refl

do_reset-told_example :
    let (_, h', t') = do_reset good_os on [] in
    (h'.chip_resetting ≡ false)
    × (((told t' ≡ radio_status_reset ∷ radio_status_resetting ∷ told [])
          × (ant_radio_enabled_status h' ≡ radio_status_enabled))
        ⊎ (told t' ≡ radio_status_disabled ∷ radio_status_resetting ∷ told []))
do_reset-told_example = do_reset-told good_os 8 on [] (λ u. omega arith) refl refl
