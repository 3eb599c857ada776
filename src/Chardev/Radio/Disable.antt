-- ===== src/Chardev/Radio/Disable.antt =====
-- `ant_init` and `ant_disable_radio`: the status that a client finds, and the lock.
use Prim.Native.String.{String}
use linux_ant_hal.Base.{
  ℕ, some, ◌≡◌, ◌≢◌, ◌↔◌, refl, false, true, List, [], ◌∷◌, arith, is_zero, minus_one, All, map,
}
use linux_ant_hal.Types.{
  eq_radio_iff, radio_status_disabled, radio_status_disabling, ant_status_success,
}
use linux_ant_hal.Os.{Os, Trace, Mutex, enabled_status_lock, lock, holds, told, make_eventfd}
use linux_ant_hal.Chardev.State.{Hal}
use linux_ant_hal.Chardev.Status.{ant_radio_enabled_status, IsClosed, status_disabled_iff}
use linux_ant_hal.Chardev.Power.{ant_disable}
use linux_ant_hal.Chardev.Power.Disable.{ant_disable_lem, holds-ant_disable, told-ant_disable}
use linux_ant_hal.Chardev.Radio.{ant_channel_init, ant_init, notify, power_down, ant_disable_radio}
use linux_ant_hal.Chardev.Radio.Enable.{notify_lem, told-notify}

channels-IsClosed : (names : List String) → All IsClosed (map ant_channel_init names)
unfolding ant_channel_init
channels-IsClosed [] = tt
channels-IsClosed (n ∷ names) = (refl, channels-IsClosed names)

-- After `ant_init` the status is DISABLED, and the result is success exactly if the event
-- descriptor could be made.
pub init_status :
    (os : Os) (names : List String) (h : Hal) (t : Trace)
    → (ant_radio_enabled_status (ant_init os names h t).1 ≡ radio_status_disabled)
      × (((ant_init os names h t).0 ≡ ant_status_success) ↔ (os.ret t make_eventfd ≢ minus_one))
unfolding ant_init
init_status os names h t =
    let (_, h', _) = ant_init os names h t in
    ground (arith, channels-IsClosed names, (status_disabled_iff h').1)

holds-power_down :
    (os : Os) (h : Hal) (t : Trace) (m : Mutex) → holds os m (power_down os h t).2 ≡ holds os m t
unfolding power_down
holds-power_down os h t m =
    let (_, h1, t1) = notify radio_status_disabling h t in
    let (_, h2, t2) = ant_disable os h1 t1 in
    ground (
      arith,
      notify_lem os radio_status_disabling h t m,
      holds-ant_disable os h1 t1 m,
      notify_lem os (ant_radio_enabled_status h2) h2 t2 m,
    )

-- `ant_disable_radio` releases the lock on every path: called with no mutex of a kind held, it
-- returns with none of that kind held.
pub disable_radio_releases :
    (os : Os) (h : Hal) (t : Trace) (m : Mutex)
    → holds os m t ≡ false
    → holds os m (ant_disable_radio os h t).2 ≡ false
unfolding ant_disable_radio holds
disable_radio_releases os h t m free =
    ground (arith, holds-power_down os h (lock enabled_status_lock ∷ t) m)

-- Where a callback is registered, an `ant_disable_radio` that gets the lock at a status other than
-- DISABLED tells the client DISABLING and then the status that the radio has on return, and
-- nothing else.
pub disable_radio_told :
    (os : Os) (f : ℕ) (h : Hal) (t : Trace)
    → h.state_callback ≡ some f
    → ant_radio_enabled_status h ≢ radio_status_disabled
    → is_zero (os.ret t (lock enabled_status_lock)) ≡ true
    → let (_, h', t') = ant_disable_radio os h t in
      told t' ≡ ant_radio_enabled_status h' ∷ radio_status_disabling ∷ told t
unfolding ant_disable_radio power_down told
disable_radio_told os f h t registered on locked =
    let m = enabled_status_lock in
    let t0 = lock m ∷ t in
    let (_, h1, t1) = notify radio_status_disabling h t0 in
    let (_, h2, t2) = ant_disable os h1 t1 in
    ground (
      arith,
      eq_radio_iff (ant_radio_enabled_status h) radio_status_disabled,
      notify_lem os radio_status_disabling h t0 m,
      told-notify radio_status_disabling f h t0 registered,
      ant_disable_lem os h1 t1,
      told-ant_disable os h1 t1,
      notify_lem os (ant_radio_enabled_status h2) h2 t2 m,
      told-notify (ant_radio_enabled_status h2) f h2 t2,
    )
