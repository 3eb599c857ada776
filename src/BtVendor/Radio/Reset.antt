-- ===== src/BtVendor/Radio/Reset.antt =====
-- `doReset` of src/bt-vendor_vfs/ant_rx_chardev.c, and the power of the chip after a failure.
use linux_ant_hal.Base.{ℕ, ◌≡◌, ◌≢◌, ◌⊎◌, true, false, some, ◌∷◌, arith, is_neg}
use linux_ant_hal.Types.{
  radio_status_enabled, radio_status_disabled, radio_status_resetting, radio_status_reset,
}
use linux_ant_hal.Os.{Os, Trace, enabled_status_lock, lock, told, state_callback}
use linux_ant_hal.Chardev.Status.{status_enabled_iff}
use linux_ant_hal.Chardev.Radio.Enable.{notify_lem, notify_eq, told-notify}
use linux_ant_hal.BtVendor.State.{Vendor}
use linux_ant_hal.BtVendor.Power.{ant_enable, ant_disable}
use linux_ant_hal.BtVendor.Power.Lemmas.{ant_enable_lem, ant_disable_lem}
use linux_ant_hal.BtVendor.Radio.{ant_radio_enabled_status, restart, do_reset}
use linux_ant_hal.BtVendor.Radio.Switch.{enable_keeps, disable_keeps}

-- Where a callback is registered, `pthread_create` stores handles other than 0 and the lock call of
-- `doReset` does not return a negative number: `doReset` ends the reset, and tells the client
-- RESETTING and then RESET, with the status ENABLED, or DISABLED.
pub vendor_do_reset-told :
    (os : Os) (f : ℕ) (v : Vendor) (t : Trace)
    → ((u : Trace) → os.thread u ≢ 0)
    → v.hal.state_callback ≡ some f
    → is_neg (os.ret (state_callback f radio_status_resetting ∷ t) (lock enabled_status_lock))
      ≡ false
    → let (_, v', t') = do_reset os v t in
      (v'.hal.chip_resetting ≡ false)
      × (((told t' ≡ radio_status_reset ∷ radio_status_resetting ∷ told t)
            × (ant_radio_enabled_status v' ≡ radio_status_enabled))
          ⊎ (told t' ≡ radio_status_disabled ∷ radio_status_resetting ∷ told t))
unfolding do_reset restart told
vendor_do_reset-told os f v t handles registered locked =
    let m = enabled_status_lock in
    let v0 = record v { hal = record v.hal { chip_resetting = true } } in
    let t1 = lock m ∷ state_callback f radio_status_resetting ∷ t in
    let v1 = record v {
      hal = record v.hal { chip_resetting = true; run_thread = false; rx_thread = 0 };
    } in
    let (_, v2, t2) = ant_disable os v1 t1 in
    let (_, v3, t3) = ant_enable os v2 t2 in
    let h4 = record v3.hal { chip_resetting = false } in
    ground (
      arith,
      notify_eq radio_status_resetting f v0.hal t registered,
      ant_disable_lem os v1 t1,
      disable_keeps os v1 t1 m,
      ant_enable_lem os v2 t2 handles,
      enable_keeps os v2 t2 m,
      notify_lem os radio_status_reset h4 t3 m,
      notify_lem os radio_status_disabled h4 t3 m,
      told-notify radio_status_reset f h4 t3,
      told-notify radio_status_disabled f h4 t3,
      (status_enabled_iff h4).1,
    )
