-- ===== src/BtVendor/Radio/Locks.antt =====
-- src/bt-vendor_vfs: the locks under the operations that switch the radio.
use linux_ant_hal.Base.{◌≡◌, Bool, true, false, ◌∷◌, arith}
use linux_ant_hal.Types.{
  RadioStatus, radio_status_disabling, radio_status_resetting, radio_status_reset,
  radio_status_disabled,
}
use linux_ant_hal.Os.{Os, Trace, Mutex, holds, enabled_status_lock, lock, ioctl_reset}
use linux_ant_hal.Os.Keeps.{Keeps, keeps_rules}
use linux_ant_hal.Chardev.State.{channel_at}
use linux_ant_hal.Chardev.Radio.{notify as hal_notify}
use linux_ant_hal.BtVendor.State.{Vendor}
use linux_ant_hal.BtVendor.Power.{ant_enable, ant_disable}
use linux_ant_hal.BtVendor.Radio.{
  notify, notify_status, power_up, ant_enable_radio, ant_disable_radio, ant_radio_hard_reset,
  restart, do_reset,
}
use linux_ant_hal.BtVendor.Radio.Switch.{enable_keeps, disable_keeps}

module _ (os : Os) (m : Mutex) where
  -- no mutex of the kind is held
  abbrev pub IsFree : Vendor → Trace → Type 0
  IsFree v t = holds os m t ≡ false

  module _ (b : Bool) where
    abbrev pub IsHeld : Vendor → Trace → Type 0
    IsHeld v t = holds os m t ≡ b

    pub notify-IsHeld : (s : RadioStatus) → Keeps IsHeld (notify s)
    unfolding hal_notify holds
    notify-IsHeld s = record { at = λ v t p. ground arith }

    pub notify_status-IsHeld : Keeps IsHeld notify_status
    notify_status-IsHeld = search (keeps_rules, notify-IsHeld) depth 10

    pub ant_enable-IsHeld : Keeps IsHeld (ant_enable os)
    ant_enable-IsHeld = record { at = λ v t p. ground (arith, enable_keeps os v t m) }

    pub ant_disable-IsHeld : Keeps IsHeld (ant_disable os)
    ant_disable-IsHeld = record { at = λ v t p. ground (arith, disable_keeps os v t m) }

    pub ruleset held_rules =
        (keeps_rules, notify-IsHeld, notify_status-IsHeld, ant_enable-IsHeld, ant_disable-IsHeld)

    power_up-IsHeld : Keeps IsHeld (power_up os)
    unfolding power_up
    power_up-IsHeld = search held_rules depth 20

  pub enable_radio-IsFree : Keeps IsFree (ant_enable_radio os)
  unfolding ant_enable_radio holds
  enable_radio-IsFree = record {
    at = λ v t p.
        let t0 = lock enabled_status_lock ∷ t in
        ground (arith, (power_up-IsHeld (holds os m t0)).at v t0);
  }

  pub disable_radio-IsFree : Keeps IsFree (ant_disable_radio os)
  unfolding ant_disable_radio holds
  disable_radio-IsFree = record {
    at = λ v t p.
        let t0 = lock enabled_status_lock ∷ t in
        let (_, v1, t1) = notify radio_status_disabling v t0 in
        let (_, v2, t2) = ant_disable os v1 t1 in
        ground (
          arith,
          (notify-IsHeld (holds os m t0) radio_status_disabling).at v t0,
          disable_keeps os v1 t1 m,
          (notify_status-IsHeld (holds os m t0)).at v2 t2,
        );
  }

  pub hard_reset-IsFree : (b : Bool) → Keeps IsFree (ant_radio_hard_reset os b)
  unfolding ant_radio_hard_reset holds
  hard_reset-IsFree false = search keeps_rules
  hard_reset-IsFree true = record {
    at = λ v t p.
        let t0 = lock enabled_status_lock ∷ t in
        let b = holds os m t0 in
        let v0 = record v { hal = record v.hal { chip_resetting = true } } in
        let (_, v1, t1) = notify radio_status_resetting v0 t0 in
        let t2 = ioctl_reset (channel_at v1.hal 0).fd ∷ t1 in
        let (_, v3, t3) = ant_disable os v1 t2 in
        let (_, v4, t4) = ant_enable os v3 t3 in
        ground (
          arith,
          (notify-IsHeld b radio_status_resetting).at v0 t0,
          disable_keeps os v1 t2 m,
          enable_keeps os v3 t3 m,
          (notify-IsHeld b radio_status_reset).at v4 t4,
          (notify-IsHeld b radio_status_disabled).at v4 t4,
        );
  }

  pub do_reset-IsFree : Keeps IsFree (do_reset os)
  unfolding do_reset restart holds
  do_reset-IsFree = record {
    at = λ v t p.
        let v0 = record v { hal = record v.hal { chip_resetting = true } } in
        let (_, v1, t1) = notify radio_status_resetting v0 t in
        let t2 = lock enabled_status_lock ∷ t1 in
        let b = holds os m t2 in
        let v2 = record v1 { hal = record v1.hal { run_thread = false; rx_thread = 0 } } in
        let (_, v3, t3) = ant_disable os v2 t2 in
        let (_, v4, t4) = ant_enable os v3 t3 in
        let v5 = record v4 { hal = record v4.hal { chip_resetting = false } } in
        ground (
          arith,
          (notify-IsHeld false radio_status_resetting).at v0 t,
          disable_keeps os v2 t2 m,
          enable_keeps os v3 t3 m,
          (notify-IsHeld b radio_status_reset).at v5 t4,
          (notify-IsHeld b radio_status_disabled).at v5 t4,
        );
  }
