-- ===== src/Bluez/Radio/Locks.antt =====
-- Switching the radio over BlueZ: both locks are released on every path.
use linux_ant_hal.Base.{◌≡◌, refl, Bool, true, false, ◌∷◌, arith}
use linux_ant_hal.Types.{
  RadioStatus, radio_status_enabling, radio_status_disabling, radio_status_enabled,
}
use linux_ant_hal.Os.{
  Os, Trace, Mutex, holds, lock, enable_lock, tx_lock, power_is_enabled, thread_create,
  power_disable,
}
use linux_ant_hal.Bluez.State.{Radio}
use linux_ant_hal.Bluez.Radio.{
  notify, chip_status, get_and_set_radio_status, join_thread, begin_enabling, thread_started,
  start_thread, check_status, enable_chip, clean_up, enable_locked, with_locks, ant_enable_radio,
  power_off, disable_locked, ant_disable_radio,
}

holds-notify :
    (os : Os) (status : RadioStatus) (h : Radio) (t : Trace) (m : Mutex)
    → (holds os m (notify status h t).2 ≡ holds os m t) × ((notify status h t).1 ≡ h)
unfolding notify holds
holds-notify os status h t m = ground arith

pub holds-get_and_set :
    (os : Os) (external : Bool) (h : Radio) (t : Trace) (m : Mutex)
    → holds os m (get_and_set_radio_status os external h t).2 ≡ holds os m t
unfolding get_and_set_radio_status holds
holds-get_and_set os false h t m = refl
holds-get_and_set os true h t m =
    let s = chip_status (os.ret t power_is_enabled) in
    ground (arith, holds-notify os s (record h { radio_status = s }) (power_is_enabled ∷ t) m)

holds-join_thread :
    (os : Os) (h : Radio) (t : Trace) (m : Mutex) → holds os m (join_thread os h t).2 ≡ holds os m t
unfolding join_thread holds
holds-join_thread os h t m = ground arith

holds-begin_enabling :
    (os : Os) (external : Bool) (h : Radio) (t : Trace) (m : Mutex)
    → holds os m (begin_enabling os external h t).2 ≡ holds os m t
unfolding begin_enabling
holds-begin_enabling os external h t m =
    let (_, h1, t1) = join_thread os h t in
    ground (
      arith,
      holds-join_thread os h t m,
      holds-notify os radio_status_enabling (record h1 { radio_status = radio_status_enabling }) t1
          m,
    )

holds-start_thread :
    (os : Os) (external : Bool) (h : Radio) (t : Trace) (m : Mutex)
    → holds os m (start_thread os external h t).2 ≡ holds os m t
unfolding start_thread thread_started holds
holds-start_thread os external h t m =
    let t1 = thread_create ∷ t in
    let h1 = record h { thread = os.thread t1; radio_status = radio_status_enabled } in
    ground (arith, holds-notify os radio_status_enabled h1 t1 m)

holds-check_status :
    (os : Os) (external : Bool) (h : Radio) (t : Trace) (m : Mutex)
    → holds os m (check_status os external h t).2 ≡ holds os m t
unfolding check_status
holds-check_status os external h t m =
    let (_, h1, t1) = get_and_set_radio_status os external h t in
    ground (arith, holds-get_and_set os external h t m, holds-begin_enabling os external h1 t1 m)

holds-enable_chip :
    (os : Os) (external : Bool) (h : Radio) (t : Trace) (m : Mutex)
    → holds os m (enable_chip os external h t).2 ≡ holds os m t
unfolding enable_chip holds
holds-enable_chip os false h t m = refl
holds-enable_chip os true h t m = refl

holds-clean_up :
    (os : Os) (external : Bool) (h : Radio) (t : Trace) (m : Mutex)
    → holds os m (clean_up os external h t).2 ≡ holds os m t
unfolding clean_up holds
holds-clean_up os external h t m = ground (
  arith,
  holds-get_and_set os external h t m,
  holds-get_and_set os external h (power_disable ∷ t) m,
)

holds-enable_locked :
    (os : Os) (external : Bool) (h : Radio) (t : Trace) (m : Mutex)
    → holds os m (enable_locked os external h t).2 ≡ holds os m t
unfolding enable_locked
holds-enable_locked os external h t m =
    let (_, h1, t1) = check_status os external h t in
    let (_, h2, t2) = enable_chip os external h1 t1 in
    let (_, h3, t3) = start_thread os external h2 t2 in
    ground (
      arith,
      holds-check_status os external h t m,
      holds-enable_chip os external h1 t1 m,
      holds-start_thread os external h2 t2 m,
      holds-clean_up os external h2 t2 m,
      holds-clean_up os external h3 t3 m,
    )

holds-disable_locked :
    (os : Os) (external : Bool) (h : Radio) (t : Trace) (m : Mutex)
    → holds os m (disable_locked os external h t).2 ≡ holds os m t
unfolding disable_locked power_off holds
holds-disable_locked os external h t m =
    let (_, h1, t1) = power_off os external h t in
    let (s, h0, t0) = get_and_set_radio_status os true h t in
    let (_, h2, t2) = join_thread os h1 t1 in
    ground (
      arith,
      holds-get_and_set os true h t m,
      holds-notify os radio_status_disabling (record h0 { radio_status = radio_status_disabling })
          t0 m,
      holds-join_thread os h1 t1 m,
      holds-get_and_set os external h2 t2 m,
    )

-- `ant_enable_radio` and `ant_disable_radio` release both locks on every path: called with no mutex
-- of a kind held, they return with none of that kind held.
pub switch_releases :
    (os : Os) (external : Bool) (h : Radio) (t : Trace) (m : Mutex)
    → holds os m t ≡ false
    → (holds os m (ant_enable_radio os external h t).2 ≡ false)
      × (holds os m (ant_disable_radio os external h t).2 ≡ false)
unfolding ant_enable_radio ant_disable_radio with_locks holds
switch_releases os external h t m free =
    let t2 = lock tx_lock ∷ lock enable_lock ∷ t in
    let enabling = record h { radio_status = radio_status_enabling } in
    ground (
      arith,
      holds-enable_locked os external h t2 m,
      holds-enable_locked os external enabling t2 m,
      holds-disable_locked os external h t2 m,
    )
