-- ===== src/Bluez/Radio/Outcome.antt =====
-- Switching the radio over BlueZ: the status that results, by what the operation returns.
use linux_ant_hal.Base.{◌≡◌, ◌↔◌, refl, ◌⊎◌, Bool, true, false, ◌∷◌, arith, is_zero}
use linux_ant_hal.Types.{
  RadioStatus, radio_status_enabling, radio_status_enabled, radio_status_disabled, eq_radio_iff,
  ant_status_success, ant_status_failed,
}
use linux_ant_hal.Os.{
  Os, Trace, lock, enable_lock, tx_lock, power_is_enabled, power_enable, thread_create,
}
use linux_ant_hal.Bluez.State.{Radio}
use linux_ant_hal.Bluez.Radio.{
  notify, chip_status, get_and_set_radio_status, join_thread, begin_enabling, thread_started,
  start_thread, check_status, enable_chip, clean_up, enable_locked, with_locks, ant_enable_radio,
  power_off, disable_locked, disable_result, ant_disable_radio,
}
use linux_ant_hal.Bluez.Radio.Status.{join_thread_lem}

notify_state : (status : RadioStatus) (h : Radio) (t : Trace) → (notify status h t).1 ≡ h
unfolding notify
notify_state status h t = ground arith

get_and_set_result :
    (os : Os) (external : Bool) (h : Radio) (t : Trace)
    → let (s, h', _) = get_and_set_radio_status os external h t in
      (s ≡ h'.radio_status) × (h'.thread ≡ h.thread)
unfolding get_and_set_radio_status
get_and_set_result os false h t = (refl, refl)
get_and_set_result os true h t =
    let s = chip_status (os.ret t power_is_enabled) in
    ground (arith, notify_state s (record h { radio_status = s }) (power_is_enabled ∷ t))

check_status_lem :
    (os : Os) (external : Bool) (h : Radio) (t : Trace)
    → let (_, h', _) = check_status os external h t in
      (h'.radio_status ≡ radio_status_enabled)
      ⊎ ((h'.radio_status ≡ radio_status_enabling) × (h'.thread ≡ 0))
unfolding check_status begin_enabling
check_status_lem os external h t =
    let (s, h1, t1) = get_and_set_radio_status os external h t in
    let (_, h2, t2) = join_thread os h1 t1 in
    let h3 = record h2 { radio_status = radio_status_enabling } in
    ground (
      arith,
      eq_radio_iff s radio_status_enabled,
      get_and_set_result os external h t,
      join_thread_lem os h1 t1,
      notify_state radio_status_enabling h3 t2,
    )

start_thread_lem :
    (os : Os) (external : Bool) (h : Radio) (t : Trace)
    → (h.radio_status ≡ radio_status_enabled) ⊎ (h.radio_status ≡ radio_status_enabling)
    → let (r, h', _) = start_thread os external h t in
      ((r ≡ ant_status_success) × (h'.radio_status ≡ radio_status_enabled))
      ⊎ (r ≡ ant_status_failed)
unfolding start_thread thread_started
start_thread_lem os external h t ready =
    let t1 = thread_create ∷ t in
    let h1 = record h { thread = os.thread t1; radio_status = radio_status_enabled } in
    ground (
      arith,
      eq_radio_iff h.radio_status radio_status_enabling,
      notify_state radio_status_enabled h1 t1,
    )

enable_locked_lem :
    (os : Os) (external : Bool) (h : Radio) (t : Trace)
    → (enable_locked os external h t).0 ≡ ant_status_success
    → (enable_locked os external h t).1.radio_status ≡ radio_status_enabled
unfolding enable_locked enable_chip
enable_locked_lem os external h t done =
    let (_, h1, t1) = check_status os external h t in
    ground (
      arith,
      check_status_lem os external h t,
      start_thread_lem os external h1 t1,
      start_thread_lem os external h1 (power_enable ∷ t1),
    )

-- The status is ENABLED after every `ant_enable_radio` that returns success, with the power library
-- and without.
pub enable_success :
    (os : Os) (external : Bool) (h : Radio) (t : Trace)
    → (ant_enable_radio os external h t).0 ≡ ant_status_success
    → (ant_enable_radio os external h t).1.radio_status ≡ radio_status_enabled
unfolding ant_enable_radio with_locks
enable_success os external h t done =
    let t2 = lock tx_lock ∷ lock enable_lock ∷ t in
    let enabling = record h { radio_status = radio_status_enabling } in
    ground (arith, enable_locked_lem os external h t2, enable_locked_lem os external enabling t2)

disable_locked_lem :
    (os : Os) (external : Bool) (h : Radio) (t : Trace)
    → let (r, h', _) = disable_locked os external h t in
      (h'.thread ≡ 0) × (r ≡ disable_result h'.radio_status)
unfolding disable_locked
disable_locked_lem os external h t =
    let (_, h1, t1) = power_off os external h t in
    let (_, h2, t2) = join_thread os h1 t1 in
    ground (arith, join_thread_lem os h1 t1, get_and_set_result os external h2 t2)

-- After an `ant_disable_radio` that gets both locks there is no receive thread, and the result is
-- success exactly if the status is DISABLED.
pub disable_lem :
    (os : Os) (external : Bool) (h : Radio) (t : Trace)
    → is_zero (os.ret t (lock enable_lock)) ≡ true
    → is_zero (os.ret (lock enable_lock ∷ t) (lock tx_lock)) ≡ true
    → let (r, h', _) = ant_disable_radio os external h t in
      (h'.thread ≡ 0) × ((r ≡ ant_status_success) ↔ (h'.radio_status ≡ radio_status_disabled))
unfolding ant_disable_radio with_locks
disable_lem os external h t first second =
    let t2 = lock tx_lock ∷ lock enable_lock ∷ t in
    let (_, h', _) = disable_locked os external h t2 in
    ground (
      arith,
      disable_locked_lem os external h t2,
      eq_radio_iff h'.radio_status radio_status_disabled,
    )

-- Without the power library, an `ant_enable_radio` that gets both locks at the status DISABLED and
-- whose receive thread cannot be created returns failure and leaves the status at ENABLING.
pub enable_stays_enabling :
    (os : Os) (h : Radio) (t : Trace)
    → h.radio_status ≡ radio_status_disabled
    → h.thread ≡ 0
    → is_zero (os.ret t (lock enable_lock)) ≡ true
    → is_zero (os.ret (lock enable_lock ∷ t) (lock tx_lock)) ≡ true
    → is_zero (os.ret (lock tx_lock ∷ lock enable_lock ∷ t) thread_create) ≡ false
    → let (r, h', _) = ant_enable_radio os false h t in
      (r ≡ ant_status_failed) × (h'.radio_status ≡ radio_status_enabling)
unfolding ant_enable_radio with_locks enable_locked check_status begin_enabling enable_chip
    start_thread clean_up join_thread get_and_set_radio_status
enable_stays_enabling os h t off alone first second failed = ground arith
