-- ===== src/Chardev/Radio/Reset.antt =====
-- `ant_radio_hard_reset`, and the receive thread's `doReset`.
use linux_ant_hal.Base.{
  ℕ, suc, some, is_neg, if◌then◌else◌, ◌≡◌, ◌≢◌, ◌⊎◌, false, true, ◌∷◌, arith, is_zero, pos,
}
use linux_ant_hal.Types.{
  radio_status_enabled, radio_status_resetting, radio_status_reset, radio_status_disabled,
  ant_status_success, eq_ant,
}
use linux_ant_hal.Os.{
  Os, Trace, Mutex, enabled_status_lock, lock, unlock, holds, told, ioctl_reset, state_callback,
}
use linux_ant_hal.Chardev.State.{Hal, channel_at}
use linux_ant_hal.Chardev.Status.{ant_radio_enabled_status, status_enabled_iff}
use linux_ant_hal.Chardev.Power.{ant_disable, ant_enable}
use linux_ant_hal.Chardev.Power.Disable.{ant_disable_lem, holds-ant_disable, told-ant_disable}
use linux_ant_hal.Chardev.Power.Enable.{
  ant_enable_lem, ant_enable_thread, holds-ant_enable, told-ant_enable,
}
use linux_ant_hal.Chardev.Radio.{
  notify, ant_enable_radio, ant_disable_radio, ant_radio_hard_reset, do_reset,
}
use linux_ant_hal.Chardev.Radio.Enable.{notify_lem, told-notify, notify_eq, enable_radio_releases}
use linux_ant_hal.Chardev.Radio.Disable.{disable_radio_releases}

-- If the driver supports a hard reset, `pthread_create` stores handles other than 0 and the hard
-- reset returns success, then the status is ENABLED afterwards; a reset that was under way before
-- is over.
pub hard_reset_success :
    (os : Os) (h : Hal) (t : Trace)
    → ((u : Trace) → os.thread u ≢ 0)
    → (ant_radio_hard_reset os true h t).0 ≡ ant_status_success
    → ant_radio_enabled_status (ant_radio_hard_reset os true h t).1 ≡ radio_status_enabled
unfolding ant_radio_hard_reset
hard_reset_success os h t handles done =
    let m = enabled_status_lock in
    let t0 = lock m ∷ t in
    let h0 = record h { chip_resetting = true } in
    let (_, h1, t1) = notify radio_status_resetting h0 t0 in
    let t2 = ioctl_reset (channel_at h1 0).fd ∷ t1 in
    let (_, h3, t3) = ant_disable os h1 t2 in
    let (_, h4, t4) = ant_enable os h3 t3 in
    let h5 = record h4 { chip_resetting = false } in
    ground (
      arith,
      notify_lem os radio_status_resetting h0 t0 m,
      ant_disable_lem os h1 t2,
      ant_enable_lem os h3 t3,
      ant_enable_thread os h3 t3 handles,
      notify_lem os radio_status_reset h4 t4 m,
      (status_enabled_iff h5).1,
    )

-- A hard reset releases the lock on every path: called with no mutex of a kind held, it returns
-- with none of that kind held.
pub hard_reset_releases :
    (os : Os) (h : Hal) (t : Trace) (m : Mutex)
    → holds os m t ≡ false
    → holds os m (ant_radio_hard_reset os true h t).2 ≡ false
unfolding ant_radio_hard_reset holds
hard_reset_releases os h t m free =
    let t0 = lock enabled_status_lock ∷ t in
    let h0 = record h { chip_resetting = true } in
    let (_, h1, t1) = notify radio_status_resetting h0 t0 in
    let t2 = ioctl_reset (channel_at h1 0).fd ∷ t1 in
    let (_, h3, t3) = ant_disable os h1 t2 in
    let (_, h4, t4) = ant_enable os h3 t3 in
    ground (
      arith,
      notify_lem os radio_status_resetting h0 t0 m,
      holds-ant_disable os h1 t2 m,
      holds-ant_enable os h3 t3 m,
      notify_lem os radio_status_reset h4 t4 m,
      notify_lem os radio_status_disabled h4 t4 m,
    )

-- Where a callback is registered, a hard reset that gets the lock tells the client RESETTING, and
-- then RESET if it returns success and DISABLED otherwise, and nothing else.
pub hard_reset_told :
    (os : Os) (f : ℕ) (h : Hal) (t : Trace)
    → h.state_callback ≡ some f
    → is_zero (os.ret t (lock enabled_status_lock)) ≡ true
    → let (r, _, t') = ant_radio_hard_reset os true h t in
      told t'
      ≡ (if eq_ant r ant_status_success then radio_status_reset else radio_status_disabled)
        ∷ radio_status_resetting
        ∷ told t
unfolding ant_radio_hard_reset told
hard_reset_told os f h t registered locked =
    let m = enabled_status_lock in
    let t0 = lock m ∷ t in
    let h0 = record h { chip_resetting = true } in
    let (_, h1, t1) = notify radio_status_resetting h0 t0 in
    let t2 = ioctl_reset (channel_at h1 0).fd ∷ t1 in
    let (_, h3, t3) = ant_disable os h1 t2 in
    let (_, h4, t4) = ant_enable os h3 t3 in
    ground (
      arith,
      notify_lem os radio_status_resetting h0 t0 m,
      told-notify radio_status_resetting f h0 t0 registered,
      ant_disable_lem os h1 t2,
      told-ant_disable os h1 t2,
      ant_enable_lem os h3 t3,
      told-ant_enable os h3 t3,
      notify_lem os radio_status_reset h4 t4 m,
      told-notify radio_status_reset f h4 t4,
      told-notify radio_status_disabled f h4 t4,
    )

-- Where a callback is registered, `pthread_create` stores handles other than 0 and the lock call of
-- `doReset` does not return a negative number: `doReset` ends the reset, and tells the client
-- RESETTING and then RESET, with the status ENABLED, or DISABLED.
pub do_reset-told :
    (os : Os) (f : ℕ) (h : Hal) (t : Trace)
    → ((u : Trace) → os.thread u ≢ 0)
    → h.state_callback ≡ some f
    → is_neg (os.ret (state_callback f radio_status_resetting ∷ t) (lock enabled_status_lock))
      ≡ false
    → let (_, h', t') = do_reset os h t in
      (h'.chip_resetting ≡ false)
      × (((told t' ≡ radio_status_reset ∷ radio_status_resetting ∷ told t)
            × (ant_radio_enabled_status h' ≡ radio_status_enabled))
          ⊎ (told t' ≡ radio_status_disabled ∷ radio_status_resetting ∷ told t))
unfolding do_reset told
do_reset-told os f h t handles registered locked =
    let m = enabled_status_lock in
    let h0 = record h { chip_resetting = true } in
    let t1 = lock m ∷ state_callback f radio_status_resetting ∷ t in
    let h1 = record h0 { run_thread = false; rx_thread = 0 } in
    let (_, h2, t2) = ant_disable os h1 t1 in
    let (_, h3, t3) = ant_enable os h2 t2 in
    let h4 = record h3 { chip_resetting = false } in
    ground (
      arith,
      notify_eq radio_status_resetting f h0 t registered,
      ant_disable_lem os h1 t1,
      told-ant_disable os h1 t1,
      ant_enable_lem os h2 t2,
      ant_enable_thread os h2 t2 handles,
      told-ant_enable os h2 t2,
      notify_lem os radio_status_reset h4 t3 m,
      notify_lem os radio_status_disabled h4 t3 m,
      told-notify radio_status_reset f h4 t3,
      told-notify radio_status_disabled f h4 t3,
      (status_enabled_iff h4).1,
    )

-- Where a callback is registered and the lock call of `doReset` returns a positive error number,
-- `doReset` goes on without the lock: its last call but for the callback is to release it, and the
-- client is told that the reset is over.
pub do_reset_unlocked :
    (os : Os) (n f : ℕ) (h : Hal) (t : Trace)
    → h.state_callback ≡ some f
    → os.ret (state_callback f radio_status_resetting ∷ t) (lock enabled_status_lock) ≡ pos (suc n)
    → holds os enabled_status_lock t ≡ false
    → (u : Trace) × ((do_reset os h t).2 ≡ unlock enabled_status_lock ∷ u)
      × (holds os enabled_status_lock u ≡ false)
unfolding do_reset holds
do_reset_unlocked os n f h t registered failed free =
    let m = enabled_status_lock in
    let h0 = record h { chip_resetting = true } in
    let t1 = lock m ∷ state_callback f radio_status_resetting ∷ t in
    let h1 = record h0 { run_thread = false; rx_thread = 0 } in
    let (_, h2, t2) = ant_disable os h1 t1 in
    let (e, h3, t3) = ant_enable os h2 t2 in
    let h4 = record h3 { chip_resetting = false } in
    let (_, _, u) =
      notify (if is_zero e then radio_status_reset else radio_status_disabled) h4 t3 in
    (
      u,
      ground (arith, notify_eq radio_status_resetting f h0 t registered),
      ground (
        arith,
        notify_eq radio_status_resetting f h0 t registered,
        holds-ant_disable os h1 t1 m,
        holds-ant_enable os h2 t2 m,
        notify_lem os (if is_zero e then radio_status_reset else radio_status_disabled) h4 t3 m,
      ),
    )

-- Switching on, switching off and a hard reset release the lock on every path: called with no mutex of
-- a kind held, they return with none of that kind held.
pub radio_releases :
    (os : Os) (h : Hal) (t : Trace) (m : Mutex)
    → holds os m t ≡ false
    → (holds os m (ant_enable_radio os h t).2 ≡ false)
      × (holds os m (ant_disable_radio os h t).2 ≡ false)
      × (holds os m (ant_radio_hard_reset os true h t).2 ≡ false)
radio_releases os h t m free = (
  enable_radio_releases os h t m free,
  disable_radio_releases os h t m free,
  hard_reset_releases os h t m free,
)
