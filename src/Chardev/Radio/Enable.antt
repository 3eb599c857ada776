-- ===== src/Chardev/Radio/Enable.antt =====
-- `ant_enable_radio` and `ant_init`: the status that a client finds, and the lock.
use linux_ant_hal.Base.{ℕ, ◌≡◌, ◌≢◌, ◌⊎◌, true, false, some, ◌∷◌, arith, is_zero, All}
use linux_ant_hal.Types.{
  RadioStatus, radio_status_enabling, radio_status_enabled, ant_status_success, ant_status_failed,
  eq_radio_iff,
}
use linux_ant_hal.Os.{
  Os, Trace, Mutex, enabled_status_lock, lock, unlock, holds, told, state_callback,
}
use linux_ant_hal.Chardev.State.{Hal}
use linux_ant_hal.Chardev.Status.{ant_radio_enabled_status, IsOpen, status_enabled_iff}
use linux_ant_hal.Chardev.Power.{ant_enable, ant_disable}
use linux_ant_hal.Chardev.Power.Enable.{
  ant_enable_lem, ant_enable_thread, holds-ant_enable, told-ant_enable,
}
use linux_ant_hal.Chardev.Power.Disable.{ant_disable_lem, holds-ant_disable, told-ant_disable}
use linux_ant_hal.Chardev.Radio.{notify, power_up, ant_enable_radio}

-- The callback leaves the state alone, and no mutex changes hands in it.
pub notify_lem :
    (os : Os) (status : RadioStatus) (h : Hal) (t : Trace) (m : Mutex)
    → let (_, h', t') = notify status h t in (h' ≡ h) × (holds os m t' ≡ holds os m t)
unfolding notify holds
notify_lem os status h t m = ground arith

pub notify_eq :
    (status : RadioStatus) (f : ℕ) (h : Hal) (t : Trace)
    → h.state_callback ≡ some f
    → notify status h t ≡ (tt, h, state_callback f status ∷ t)
unfolding notify
notify_eq status f h t registered = ground arith

-- With a callback registered, the client is told the status.
pub told-notify :
    (status : RadioStatus) (f : ℕ) (h : Hal) (t : Trace)
    → h.state_callback ≡ some f
    → told (notify status h t).2 ≡ status ∷ told t
unfolding notify told
told-notify status f h t registered = ground arith

-- A mutex is held after an attempt to switch the radio on exactly if it was before.
holds-power_up :
    (os : Os) (h : Hal) (t : Trace) (m : Mutex) → holds os m (power_up os h t).2 ≡ holds os m t
unfolding power_up
holds-power_up os h t m =
    let (_, h1, t1) = notify radio_status_enabling h t in
    let (_, h2, t2) = ant_enable os h1 t1 in
    let (_, h3, t3) = ant_disable os h2 t2 in
    ground (
      arith,
      notify_lem os radio_status_enabling h t m,
      holds-ant_enable os h1 t1 m,
      holds-ant_disable os h2 t2 m,
      notify_lem os radio_status_enabled h2 t2 m,
      notify_lem os (ant_radio_enabled_status h3) h3 t3 m,
    )

-- What an attempt to switch the radio on leaves behind.
power_up_lem :
    (os : Os) (h : Hal) (t : Trace)
    → let (r, h', _) = power_up os h t in
      (h'.chip_resetting ≡ h.chip_resetting)
      × (((r ≡ ant_status_success)
            × All IsOpen h'.channels
            × ((h'.rx_thread ≡ 0) ⊎ (h'.run_thread ≡ true)))
          ⊎ ((r ≡ ant_status_failed) × (h'.run_thread ≡ false) × (h'.rx_thread ≡ 0)))
unfolding power_up
power_up_lem os h t =
    let m = enabled_status_lock in
    let (_, h1, t1) = notify radio_status_enabling h t in
    let (_, h2, t2) = ant_enable os h1 t1 in
    let (_, h3, t3) = ant_disable os h2 t2 in
    ground (
      arith,
      notify_lem os radio_status_enabling h t m,
      ant_enable_lem os h1 t1,
      ant_disable_lem os h2 t2,
      notify_lem os radio_status_enabled h2 t2 m,
      notify_lem os (ant_radio_enabled_status h3) h3 t3 m,
    )

-- Switching the radio on again, while its status is ENABLED, returns success; it takes and releases
-- the lock, calls nothing else and changes no state.
pub enable_radio_redundant :
    (os : Os) (h : Hal) (t : Trace)
    → is_zero (os.ret t (lock enabled_status_lock)) ≡ true
    → ant_radio_enabled_status h ≡ radio_status_enabled
    → ant_enable_radio os h t
      ≡ (ant_status_success, h, unlock enabled_status_lock ∷ lock enabled_status_lock ∷ t)
unfolding ant_enable_radio
enable_radio_redundant os h t locked on = ground arith

power_up_thread :
    (os : Os) (h : Hal) (t : Trace)
    → ((u : Trace) → os.thread u ≢ 0)
    → (power_up os h t).0 ≡ ant_status_success
    → (power_up os h t).1.rx_thread ≢ 0
unfolding power_up
power_up_thread os h t handles done =
    let m = enabled_status_lock in
    let (_, h1, t1) = notify radio_status_enabling h t in
    let (_, h2, t2) = ant_enable os h1 t1 in
    ground (
      arith,
      ant_enable_lem os h1 t1,
      ant_enable_thread os h1 t1 handles,
      notify_lem os radio_status_enabled h2 t2 m,
    )

-- If no reset is under way and `pthread_create` stores handles other than 0, then the status is
-- ENABLED after every `ant_enable_radio` that returns success.
pub enable_radio_success :
    (os : Os) (h : Hal) (t : Trace)
    → ((u : Trace) → os.thread u ≢ 0)
    → h.chip_resetting ≡ false
    → (ant_enable_radio os h t).0 ≡ ant_status_success
    → ant_radio_enabled_status (ant_enable_radio os h t).1 ≡ radio_status_enabled
unfolding ant_enable_radio
enable_radio_success os h t handles quiet done =
    let t0 = lock enabled_status_lock ∷ t in
    let (_, h', _) = power_up os h t0 in
    ground (arith, power_up_lem os h t0, power_up_thread os h t0 handles, (status_enabled_iff h').1)

-- `ant_enable_radio` returns success or failure only. Where it got the lock and fails, the receive
-- thread is told to stop and its handle is cleared.
pub enable_radio_failure :
    (os : Os) (h : Hal) (t : Trace)
    → is_zero (os.ret t (lock enabled_status_lock)) ≡ true
    → (ant_enable_radio os h t).0 ≢ ant_status_success
    → ((ant_enable_radio os h t).0 ≡ ant_status_failed)
      × ((ant_enable_radio os h t).1.run_thread ≡ false)
      × ((ant_enable_radio os h t).1.rx_thread ≡ 0)
unfolding ant_enable_radio
enable_radio_failure os h t locked bad =
    ground (arith, power_up_lem os h (lock enabled_status_lock ∷ t))

-- `ant_enable_radio` releases the lock on every path: called with no mutex of a kind held, it
-- returns with none of that kind held.
pub enable_radio_releases :
    (os : Os) (h : Hal) (t : Trace) (m : Mutex)
    → holds os m t ≡ false
    → holds os m (ant_enable_radio os h t).2 ≡ false
unfolding ant_enable_radio holds
enable_radio_releases os h t m free =
    ground (arith, holds-power_up os h (lock enabled_status_lock ∷ t) m)

-- Where a callback is registered, no reset is under way and `pthread_create` stores handles other
-- than 0, an `ant_enable_radio` that gets the lock at a status other than ENABLED tells the client
-- ENABLING and then the status that the radio has on return, and nothing else.
pub enable_radio_told :
    (os : Os) (f : ℕ) (h : Hal) (t : Trace)
    → ((u : Trace) → os.thread u ≢ 0)
    → h.state_callback ≡ some f
    → h.chip_resetting ≡ false
    → ant_radio_enabled_status h ≢ radio_status_enabled
    → is_zero (os.ret t (lock enabled_status_lock)) ≡ true
    → let (_, h', t') = ant_enable_radio os h t in
      told t' ≡ ant_radio_enabled_status h' ∷ radio_status_enabling ∷ told t
unfolding ant_enable_radio power_up told
enable_radio_told os f h t handles registered quiet off locked =
    let m = enabled_status_lock in
    let t0 = lock m ∷ t in
    let (_, h1, t1) = notify radio_status_enabling h t0 in
    let (_, h2, t2) = ant_enable os h1 t1 in
    let (_, h3, t3) = ant_disable os h2 t2 in
    ground (
      arith,
      eq_radio_iff (ant_radio_enabled_status h) radio_status_enabled,
      notify_lem os radio_status_enabling h t0 m,
      told-notify radio_status_enabling f h t0 registered,
      ant_enable_lem os h1 t1,
      ant_enable_thread os h1 t1 handles,
      told-ant_enable os h1 t1,
      ant_disable_lem os h2 t2,
      told-ant_disable os h2 t2,
      notify_lem os radio_status_enabled h2 t2 m,
      told-notify radio_status_enabled f h2 t2,
      notify_lem os (ant_radio_enabled_status h3) h3 t3 m,
      told-notify (ant_radio_enabled_status h3) f h3 t3,
      (status_enabled_iff h2).1,
    )
