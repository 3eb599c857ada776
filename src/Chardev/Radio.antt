-- ===== src/Chardev/Radio.antt =====
-- src/vfs/ant_native_chardev.c: the operations that a client calls to switch the radio, and
-- `doReset` of src/vfs/ant_rx_chardev.c.
pub mod Enable
pub mod Disable
pub mod Reset
mod Tests
use Prim.Native.String.{String}
use linux_ant_hal.Base.{
  ℕ, Bool, true, false, not, none, some, Option, List, [], ◌∷◌, ℤ, pos, minus_one, is_neg, is_zero,
  eq_ℤ, map, if◌then◌else◌,
}
use linux_ant_hal.Types.{
  RadioStatus, radio_status_enabling, radio_status_enabled, radio_status_disabling,
  radio_status_disabled, radio_status_resetting, radio_status_reset, AntStatus, ant_status_success,
  ant_status_failed, ant_status_not_supported, eq_radio,
}
use linux_ant_hal.Os.{
  Os, M, ◌>>=◌, ◌>>◌, pure, get, put, modify, call, tell, enabled_status_lock, lock, unlock,
  make_eventfd, close_file, ioctl_reset, state_callback,
}
use linux_ant_hal.Chardev.State.{Channel, Hal, channel_at, ant_flow_go}
use linux_ant_hal.Chardev.Status.{ant_radio_enabled_status}
use linux_ant_hal.Chardev.Power.{ant_enable, ant_disable}

unfoldable pub ant_channel_init : String → Channel
ant_channel_init path = record {
  device_path = path;
  fd = minus_one;
  rx_callback = none;
  flow_control_resp = ant_flow_go;
}

-- `if (g_fnStateCallback) g_fnStateCallback(status);`
unfoldable pub notify : RadioStatus → M Hal (Unit {0})
notify status = do
  h ← get
  let told : M Hal (Unit {0}) = elim h.state_callback [
    | none ↦ pure tt
    | some f ↦ tell (state_callback f status)
  ]
  told

abbrev pub with_rx_callback : Option ℕ → Channel → Channel
with_rx_callback f c = record c { rx_callback = f }

unfoldable pub set_ant_rx_callback : Option ℕ → M Hal AntStatus
set_ant_rx_callback f = do
  modify (λ h. record h { channels = map (with_rx_callback f) h.channels })
  pure ant_status_success

unfoldable pub set_ant_state_callback : Option ℕ → M Hal AntStatus
set_ant_state_callback f = do modify (λ h. record h { state_callback = f }); pure ant_status_success

module _ (os : Os) where
  -- The names are those of the drivers' devices, in the order of `ant_channel_type`.
  unfoldable pub ant_init : List String → M Hal AntStatus
  ant_init names = do
    modify (λ h. record h {
      rx_thread = 0;
      run_thread = false;
      chip_resetting = false;
      state_callback = none;
      channels = map ant_channel_init names;
    })
    fd ← call os make_eventfd
    modify (λ h. record h { rx_shutdown_event_fd = fd })
    pure (if eq_ℤ fd minus_one then ant_status_failed else ant_status_success)

  pub ant_deinit : M Hal AntStatus
  ant_deinit = do
    h ← get
    r ← call os (close_file h.rx_shutdown_event_fd)
    pure (if is_neg r then ant_status_failed else ant_status_success)

  -- `ant_enable_radio` at a status that is not ENABLED, with the lock held
  unfoldable pub power_up : M Hal AntStatus
  power_up = do
    notify radio_status_enabling
    r ← ant_enable os
    if is_neg r
        then (do
          ant_disable os
          h ← get
          notify (ant_radio_enabled_status h)
          pure ant_status_failed)
        else (do notify radio_status_enabled; pure ant_status_success)

  unfoldable pub ant_enable_radio : M Hal AntStatus
  ant_enable_radio = do
    r ← call os (lock enabled_status_lock)
    if not (is_zero r) then pure ant_status_failed else do
      h ← get
      status ←
          if eq_radio (ant_radio_enabled_status h) radio_status_enabled
          then pure ant_status_success
          else power_up
      tell (unlock enabled_status_lock)
      pure status

  -- `ant_disable_radio` at a status that is not DISABLED, with the lock held
  unfoldable pub power_down : M Hal (Unit {0})
  power_down = do
    notify radio_status_disabling
    ant_disable os
    h ← get
    notify (ant_radio_enabled_status h)

  unfoldable pub ant_disable_radio : M Hal AntStatus
  ant_disable_radio = do
    r ← call os (lock enabled_status_lock)
    if not (is_zero r) then pure ant_status_failed else do
      h ← get
      if eq_radio (ant_radio_enabled_status h) radio_status_disabled then pure tt else power_down
      tell (unlock enabled_status_lock)
      pure ant_status_success

  -- `ant_radio_hard_reset`; `supported` says whether the driver defines ANT_IOCTL_RESET.
  unfoldable pub ant_radio_hard_reset : Bool → M Hal AntStatus
  ant_radio_hard_reset false = pure ant_status_not_supported
  ant_radio_hard_reset true = do
    r ← call os (lock enabled_status_lock)
    if not (is_zero r) then pure ant_status_failed else do
      modify (λ s. record s { chip_resetting = true })
      notify radio_status_resetting
      h ← get
      tell (ioctl_reset (channel_at h 0).fd)
      ant_disable os
      e ← ant_enable os
      notify (if is_zero e then radio_status_reset else radio_status_disabled)
      modify (λ s. record s { chip_resetting = false })
      tell (unlock enabled_status_lock)
      pure (if is_zero e then ant_status_success else ant_status_failed)

  -- `doReset`, run by the receive thread
  unfoldable pub do_reset : M Hal (Unit {0})
  do_reset = do
    modify (λ s. record s { chip_resetting = true })
    notify radio_status_resetting
    modify (λ s. record s { run_thread = false })
    r ← call os (lock enabled_status_lock)
    if is_neg r then modify (λ s. record s { rx_thread = 0; chip_resetting = false }) else do
      modify (λ s. record s { rx_thread = 0 })
      ant_disable os
      e ← ant_enable os
      modify (λ s. record s { chip_resetting = false })
      notify (if is_zero e then radio_status_reset else radio_status_disabled)
      tell (unlock enabled_status_lock)
