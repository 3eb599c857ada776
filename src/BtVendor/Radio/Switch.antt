-- ===== src/BtVendor/Radio/Switch.antt =====
-- `ant_enable_radio` and `ant_disable_radio` of src/bt-vendor_vfs/ant_native_chardev.c.
use linux_ant_hal.Base.{ℕ, ◌≡◌, refl, ◌≢◌, ◌⊎◌, true, false, some, ◌∷◌, arith, is_zero, All}
use linux_ant_hal.Types.{
  radio_status_enabling, radio_status_enabled, radio_status_disabling, radio_status_disabled,
  ant_status_success, ant_status_failed,
}
use linux_ant_hal.Os.{Os, Trace, Mutex, enabled_status_lock, lock, holds, told}
use linux_ant_hal.Chardev.Status.{IsOpen, status_enabled_iff, status_disabled_iff}
use linux_ant_hal.Chardev.Radio.Enable.{notify_lem, told-notify}
use linux_ant_hal.BtVendor.State.{Vendor}
use linux_ant_hal.BtVendor.Power.{ant_enable, ant_disable}
use linux_ant_hal.BtVendor.Power.Lemmas.{
  ant_enable_lem, ant_disable_lem, ant_enable-Keeps, ant_disable-Keeps,
}
use linux_ant_hal.BtVendor.Radio.{
  ant_radio_enabled_status, notify, power_up, ant_enable_radio, ant_disable_radio,
}

-- What `ant_enable` and `ant_disable` keep: who holds a mutex, and what the client was told.
pub enable_keeps :
    (os : Os) (v : Vendor) (t : Trace) (m : Mutex)
    → (holds os m (ant_enable os v t).2 ≡ holds os m t) × (told (ant_enable os v t).2 ≡ told t)
enable_keeps os v t m = (ant_enable-Keeps os m (holds os m t) (told t)).at v t (refl, refl)

pub disable_keeps :
    (os : Os) (v : Vendor) (t : Trace) (m : Mutex)
    → (holds os m (ant_disable os v t).2 ≡ holds os m t) × (told (ant_disable os v t).2 ≡ told t)
disable_keeps os v t m = (ant_disable-Keeps os m (holds os m t) (told t)).at v t (refl, refl)

power_up_lem :
    (os : Os) (v : Vendor) (t : Trace)
    → ((u : Trace) → os.thread u ≢ 0)
    → let (r, v', _) = power_up os v t in
      (v'.hal.chip_resetting ≡ v.hal.chip_resetting)
      × (((r ≡ ant_status_success)
            × All IsOpen v'.hal.channels
            × (v'.hal.rx_thread ≢ 0)
            × (v'.hal.run_thread ≡ true))
          ⊎ ((r ≡ ant_status_failed) × (v'.hal.run_thread ≡ false) × (v'.hal.rx_thread ≡ 0)))
unfolding power_up
power_up_lem os v t handles =
    let m = enabled_status_lock in
    let (_, v1, t1) = notify radio_status_enabling v t in
    let (_, v2, t2) = ant_enable os v1 t1 in
    let (_, v3, t3) = ant_disable os v2 t2 in
    ground (
      arith,
      notify_lem os radio_status_enabling v.hal t m,
      ant_enable_lem os v1 t1 handles,
      ant_disable_lem os v2 t2,
      notify_lem os radio_status_enabled v2.hal t2 m,
      notify_lem os (ant_radio_enabled_status v3) v3.hal t3 m,
    )

-- If no reset is under way and `pthread_create` stores handles other than 0, then every
-- `ant_enable_radio` that gets the lock returns success with the status ENABLED, or failure with the
-- receive thread told to stop and its handle cleared, so that the status is not ENABLED.
pub vendor_enable_lem :
    (os : Os) (v : Vendor) (t : Trace)
    → ((u : Trace) → os.thread u ≢ 0)
    → v.hal.chip_resetting ≡ false
    → is_zero (os.ret t (lock enabled_status_lock)) ≡ true
    → let (r, v', _) = ant_enable_radio os v t in
      ((r ≡ ant_status_success) × (ant_radio_enabled_status v' ≡ radio_status_enabled))
      ⊎ ((r ≡ ant_status_failed)
          × (v'.hal.run_thread ≡ false)
          × (v'.hal.rx_thread ≡ 0)
          × (ant_radio_enabled_status v' ≢ radio_status_enabled))
unfolding ant_enable_radio
vendor_enable_lem os v t handles quiet locked =
    let t0 = lock enabled_status_lock ∷ t in
    let (_, v', _) = power_up os v t0 in
    ground (
      arith,
      power_up_lem os v t0 handles,
      (status_enabled_iff v'.hal).0,
      (status_enabled_iff v'.hal).1,
    )

-- Where a callback is registered, no reset is under way and `pthread_create` stores handles other
-- than 0, an `ant_enable_radio` that gets the lock tells the client ENABLING and then the status that
-- the radio has on return, and nothing else, also where the status was ENABLED before.
pub vendor_enable_told :
    (os : Os) (f : ℕ) (v : Vendor) (t : Trace)
    → ((u : Trace) → os.thread u ≢ 0)
    → v.hal.state_callback ≡ some f
    → v.hal.chip_resetting ≡ false
    → is_zero (os.ret t (lock enabled_status_lock)) ≡ true
    → let (_, v', t') = ant_enable_radio os v t in
      told t' ≡ ant_radio_enabled_status v' ∷ radio_status_enabling ∷ told t
unfolding ant_enable_radio power_up told
vendor_enable_told os f v t handles registered quiet locked =
    let m = enabled_status_lock in
    let t0 = lock m ∷ t in
    let (_, v1, t1) = notify radio_status_enabling v t0 in
    let (_, v2, t2) = ant_enable os v1 t1 in
    let (_, v3, t3) = ant_disable os v2 t2 in
    ground (
      arith,
      notify_lem os radio_status_enabling v.hal t0 m,
      told-notify radio_status_enabling f v.hal t0 registered,
      ant_enable_lem os v1 t1 handles,
      enable_keeps os v1 t1 m,
      ant_disable_lem os v2 t2,
      disable_keeps os v2 t2 m,
      notify_lem os radio_status_enabled v2.hal t2 m,
      told-notify radio_status_enabled f v2.hal t2,
      notify_lem os (ant_radio_enabled_status v3) v3.hal t3 m,
      told-notify (ant_radio_enabled_status v3) f v3.hal t3,
      (status_enabled_iff v2.hal).1,
    )

-- Where a callback is registered, an `ant_disable_radio` that gets the lock returns success and tells
-- the client DISABLING and then the status on return. If no reset is under way, that is DISABLED, or
-- the receive thread could not be joined and the channels are as they were.
pub vendor_disable_lem :
    (os : Os) (f : ℕ) (v : Vendor) (t : Trace)
    → v.hal.state_callback ≡ some f
    → v.hal.chip_resetting ≡ false
    → is_zero (os.ret t (lock enabled_status_lock)) ≡ true
    → let (r, v', t') = ant_disable_radio os v t in
      (r ≡ ant_status_success)
      × (told t' ≡ ant_radio_enabled_status v' ∷ radio_status_disabling ∷ told t)
      × ((ant_radio_enabled_status v' ≡ radio_status_disabled) ⊎ (v'.hal.channels ≡ v.hal.channels))
unfolding ant_disable_radio told
vendor_disable_lem os f v t registered quiet locked =
    let m = enabled_status_lock in
    let t0 = lock m ∷ t in
    let (_, v1, t1) = notify radio_status_disabling v t0 in
    let (_, v2, t2) = ant_disable os v1 t1 in
    ground (
      arith,
      notify_lem os radio_status_disabling v.hal t0 m,
      told-notify radio_status_disabling f v.hal t0 registered,
      ant_disable_lem os v1 t1,
      disable_keeps os v1 t1 m,
      notify_lem os (ant_radio_enabled_status v2) v2.hal t2 m,
      told-notify (ant_radio_enabled_status v2) f v2.hal t2,
      (status_disabled_iff v2.hal).1,
    )
