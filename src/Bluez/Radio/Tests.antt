-- ===== src/Bluez/Radio/Tests.antt =====
-- Switching the radio over BlueZ, with a chip that answers.
use linux_ant_hal.Base.{◌≡◌, refl, true, false, [], ℤ, pos}
use linux_ant_hal.Types.{radio_status_enabled}
use linux_ant_hal.Os.{Os, Call, thread_create}
use linux_ant_hal.Bluez.Radio.{
  notify, get_and_set_radio_status, join_thread, begin_enabling, thread_started, start_thread,
  check_status, enable_chip, clean_up, enable_locked, with_locks, ant_enable_radio,
  ant_disable_radio,
}
use linux_ant_hal.Bluez.Radio.Status.{last_told, Agrees, switch-Agrees}
use linux_ant_hal.Bluez.Radio.Outcome.{enable_success}
use linux_ant_hal.Bluez.Sample.{chip_os, chip_answer, off, told_off}

switch-Agrees_example :
    (let (_, h', t') = ant_enable_radio chip_os true off told_off in Agrees h' t')
    × (let (_, h', t') = ant_disable_radio chip_os true off told_off in Agrees h' t')
unfolding last_told
switch-Agrees_example = switch-Agrees chip_os 8 off told_off refl refl refl

enable_success_example :
    (ant_enable_radio chip_os false off []).1.radio_status ≡ radio_status_enabled
unfolding ant_enable_radio with_locks enable_locked check_status begin_enabling enable_chip
    start_thread thread_started clean_up join_thread get_and_set_radio_status notify
enable_success_example = enable_success chip_os false off [] refl

abbrev threadless_answer : Call → ℤ
threadless_answer thread_create = pos 11
threadless_answer c = chip_answer c

-- No thread can be created.
abbrev threadless_os : Os
threadless_os = record chip_os { ret = λ t c. threadless_answer c; thread = λ t. 0 }
