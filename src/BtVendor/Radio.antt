-- ===== src/BtVendor/Radio.antt =====
-- src/bt-vendor_vfs/ant_native_chardev.c: the operations that a client calls to switch the radio, and
-- `doReset` of src/bt-vendor_vfs/ant_rx_chardev.c.
pub mod Switch
pub mod Reset
pub mod Locks
pub mod Failure
mod Tests
use Prim.Native.String.{String}
use linux_ant_hal.Base.{ℕ, Bool, true, false, not, Option, List, is_neg, is_zero, if◌then◌else◌}
use linux_ant_hal.Types.{
  RadioStatus, radio_status_enabling, radio_status_enabled, radio_status_disabling,
  radio_status_disabled, radio_status_resetting, radio_status_reset, AntStatus, ant_status_success,
  ant_status_failed, ant_status_not_supported,
}
use linux_ant_hal.Os.{
  Os, M, ◌>>=◌, ◌>>◌, pure, get, modify, call, tell, enabled_status_lock, lock, unlock, ioctl_reset,
}
use linux_ant_hal.Chardev.State.{channel_at}
use linux_ant_hal.Chardev.Status.{ant_radio_enabled_status as hal_status}
use linux_ant_hal.Chardev.Radio.{
  notify as hal_notify, set_ant_rx_callback as hal_set_rx_callback,
  set_ant_state_callback as hal_set_state_callback, ant_init as hal_init, ant_deinit as hal_deinit,
}
use linux_ant_hal.BtVendor.State.{Vendor, on_hal}
use linux_ant_hal.BtVendor.Power.{set_running, ant_enable, ant_disable}

abbrev pub ant_radio_enabled_status : Vendor → RadioStatus
ant_radio_enabled_status v = hal_status v.hal

abbrev pub notify : RadioStatus → M Vendor (Unit {0})
notify status = on_hal (hal_notify status)

abbrev pub set_ant_rx_callback : Option ℕ → M Vendor AntStatus
set_ant_rx_callback f = on_hal (hal_set_rx_callback f)

abbrev pub set_ant_state_callback : Option ℕ → M Vendor AntStatus
set_ant_state_callback f = on_hal (hal_set_state_callback f)

abbrev pub set_resetting : Bool → M Vendor (Unit {0})
set_resetting r = modify (λ v. record v { hal = record v.hal { chip_resetting = r } })

abbrev pub forget_rx_thread : M Vendor (Unit {0})
forget_rx_thread = modify (λ v. record v { hal = record v.hal { rx_thread = 0 } })

-- `if (g_fnStateCallback) g_fnStateCallback(ant_radio_enabled_status());`
abbrev pub notify_status : M Vendor (Unit {0})
notify_status = do v ← get; notify (ant_radio_enabled_status v)

module _ (os : Os) where
  abbrev pub ant_init : List String → M Vendor AntStatus
  ant_init names = on_hal (hal_init os names)

  abbrev pub ant_deinit : M Vendor AntStatus
  ant_deinit = on_hal (hal_deinit os)

  -- `ant_enable_radio` with the lock held
  unfoldable pub power_up : M Vendor AntStatus
  power_up = do
    notify radio_status_enabling
    r ← ant_enable os
    if is_neg r
        then (do ant_disable os; notify_status; pure ant_status_failed)
        else (do notify radio_status_enabled; pure ant_status_success)

  unfoldable pub ant_enable_radio : M Vendor AntStatus
  ant_enable_radio = do
    r ← call os (lock enabled_status_lock)
    if not (is_zero r)
        then pure ant_status_failed
        else do status ← power_up; tell (unlock enabled_status_lock); pure status

  unfoldable pub ant_disable_radio : M Vendor AntStatus
  ant_disable_radio = do
    r ← call os (lock enabled_status_lock)
    if not (is_zero r) then pure ant_status_failed else do
      notify radio_status_disabling
      ant_disable os
      notify_status
      tell (unlock enabled_status_lock)
      pure ant_status_success

  -- `ant_radio_hard_reset`; `supported` says whether the driver defines ANT_IOCTL_RESET.
  unfoldable pub ant_radio_hard_reset : Bool → M Vendor AntStatus
  ant_radio_hard_reset false = pure ant_status_not_supported
  ant_radio_hard_reset true = do
    r ← call os (lock enabled_status_lock)
    if not (is_zero r) then pure ant_status_failed else do
      set_resetting true
      notify radio_status_resetting
      v ← get
      tell (ioctl_reset (channel_at v.hal 0).fd)
      ant_disable os
      e ← ant_enable os
      notify (if is_zero e then radio_status_reset else radio_status_disabled)
      set_resetting false
      tell (unlock enabled_status_lock)
      pure (if is_zero e then ant_status_success else ant_status_failed)

  -- `doReset` with the lock
  unfoldable pub restart : M Vendor (Unit {0})
  restart = do
    forget_rx_thread
    ant_disable os
    e ← ant_enable os
    set_resetting false
    notify (if is_zero e then radio_status_reset else radio_status_disabled)
    tell (unlock enabled_status_lock)

  -- `doReset`, run by the receive thread
  unfoldable pub do_reset : M Vendor (Unit {0})
  do_reset = do
    set_resetting true
    notify radio_status_resetting
    set_running false
    r ← call os (lock enabled_status_lock)
    if is_neg r then (do forget_rx_thread; set_resetting false) else restart
