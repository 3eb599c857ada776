-- ===== src/BtVendor/Radio/Tests.antt =====
-- The operations on the radio, run where every call succeeds and where the device cannot be opened.
use linux_ant_hal.Base.{◌≡◌, refl, ◌≢◌, ◌⊎◌, true, false, [], ◌∷◌, arith, All, ℤ, minus_one}
use linux_ant_hal.Types.{
  ant_status_success, ant_status_failed, radio_status_enabling, radio_status_enabled,
  radio_status_disabled, radio_status_resetting,
}
use linux_ant_hal.Os.{Os, Call, Trace, told, eagain, read_file, vendor_power}
use linux_ant_hal.Chardev.Status.{IsClosed}
use linux_ant_hal.Chardev.Sample.{good_os, good_answer}
use linux_ant_hal.BtVendor.Power.Chip.{powered}
use linux_ant_hal.BtVendor.Radio.{ant_radio_enabled_status, ant_enable_radio, do_reset}
use linux_ant_hal.BtVendor.Radio.Switch.{vendor_enable_lem}
use linux_ant_hal.BtVendor.Radio.Failure.{do_reset_stays_enabling, failed_open_keeps_power}
use linux_ant_hal.BtVendor.Sample.{vendor_os, unopened_os, vendor_off, vendor_on}

vendor_enable_lem_example :
    let (r, v', _) = ant_enable_radio vendor_os vendor_off [] in
    ((r ≡ ant_status_success) × (ant_radio_enabled_status v' ≡ radio_status_enabled))
    ⊎ ((r ≡ ant_status_failed)
        × (v'.hal.run_thread ≡ false)
        × (v'.hal.rx_thread ≡ 0)
        × (ant_radio_enabled_status v' ≢ radio_status_enabled))
vendor_enable_lem_example = vendor_enable_lem vendor_os vendor_off [] (λ u. omega arith) refl refl

-- The counter of the event is 0 and the vendor library can no longer be loaded.
abbrev drained_answer : Call → ℤ
drained_answer (read_file _ _) = minus_one
drained_answer c = good_answer c

abbrev drained_os : Os
drained_os = record good_os { ret = λ t c. drained_answer c; errno = λ t. eagain }

abbrev switched_on : Trace
switched_on = vendor_power true ∷ []

do_reset_stays_enabling_example :
    let (_, v', t') = do_reset drained_os vendor_on switched_on in
    (told t' ≡ radio_status_disabled ∷ radio_status_resetting ∷ told switched_on)
    × (ant_radio_enabled_status v' ≡ radio_status_enabling)
unfolding powered
do_reset_stays_enabling_example =
    do_reset_stays_enabling drained_os 8 vendor_on switched_on (ground arith) refl refl
      (λ u k. refl) (λ u fd k. refl)

failed_open_keeps_power_example :
    let (r, v', t') = ant_enable_radio unopened_os vendor_off [] in
    (r ≡ ant_status_failed) × All IsClosed v'.hal.channels × (powered unopened_os t' ≡ true)
failed_open_keeps_power_example =
    failed_open_keeps_power unopened_os vendor_off [] refl (refl, tt) refl (λ u fd. refl)
      (λ u. ground arith) (λ u. ground arith) (λ u. refl) (λ u. refl)
