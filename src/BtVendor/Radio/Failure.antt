-- ===== src/BtVendor/Radio/Failure.antt =====
-- src/bt-vendor_vfs: what a failure to open the device leaves behind.
use linux_ant_hal.Base.{
  ℕ, ◌≤◌, ◌<◌, not, ◌&&◌, ◌≡◌, refl, ◌≢◌, true, false, some, List, [], ◌∷◌, arith, ℤ, is_zero,
  is_neg, pos, minus_one, All, length,
}
use linux_ant_hal.Types.{
  RadioStatus, radio_status_enabling, radio_status_disabled, radio_status_resetting,
  ant_status_failed,
}
use linux_ant_hal.Os.{
  Os, Trace, enabled_status_lock, lock, told, state_callback, read_file, load_vendor_library,
  find_vendor_interface, vendor_open, vendor_power, vendor_init, signal_eventfd, thread_join,
}
use linux_ant_hal.Chardev.State.{Channel}
use linux_ant_hal.Chardev.Status.{ant_radio_enabled_status as hal_status, IsClosed}
use linux_ant_hal.Chardev.Power.{is_eagain, disable_out}
use linux_ant_hal.Chardev.Radio.{notify as hal_notify}
use linux_ant_hal.Chardev.Radio.Enable.{notify_lem, notify_eq, told-notify}
use linux_ant_hal.BtVendor.State.{Vendor}
use linux_ant_hal.BtVendor.Transport.{init_transport_bdroid, power_on_and_open}
use linux_ant_hal.BtVendor.Power.{
  ant_disable_channel, disable_channels, close_channels, end_thread, ant_enable_channel,
  enable_channels, open_channels, ant_enable, ant_disable,
}
use linux_ant_hal.BtVendor.Power.Lemmas.{close_channels_lem, ant_disable_lem}
use linux_ant_hal.BtVendor.Power.Chip.{powered, IsPowered, ant_disable-IsPowered}
use linux_ant_hal.BtVendor.Radio.{
  ant_radio_enabled_status, notify, power_up, ant_enable_radio, restart, do_reset,
}
use linux_ant_hal.BtVendor.Radio.Switch.{enable_keeps, disable_keeps}

unloadable_channels :
    (os : Os) (cs : List Channel) (v : Vendor) (t : Trace)
    → os.ret t load_vendor_library ≡ pos 0
    → 1 ≤ length cs
    → All IsClosed cs
    → let ((r, cs'), v', _) = enable_channels os cs v t in
      (r ≡ minus_one) × (v' ≡ v) × All IsClosed cs'
unfolding enable_channels ant_enable_channel init_transport_bdroid
unloadable_channels os [] v t missing one closed = ground arith
unloadable_channels os (c ∷ cs) v t missing one closed = ground arith

-- `ant_enable` where the vendor library cannot be loaded and there is no channel but closed ones: it
-- fails, and leaves the receive thread unmade and ucRunThread set.
unloadable_lem :
    (os : Os) (v : Vendor) (t : Trace)
    → let c = read_file v.hal.rx_shutdown_event_fd 8 in
      os.ret (c ∷ t) load_vendor_library ≡ pos 0
      → is_neg (os.ret t c) && not (is_eagain (os.errno (c ∷ t))) ≡ false
      → 1 ≤ length v.hal.channels
      → All IsClosed v.hal.channels
      → let (r, v', _) = ant_enable os v t in
        (r ≡ minus_one)
        × (v'.hal.run_thread ≡ true)
        × (v'.hal.rx_thread ≡ v.hal.rx_thread)
        × (v'.hal.chip_resetting ≡ v.hal.chip_resetting)
        × (v'.hal.state_callback ≡ v.hal.state_callback)
        × All IsClosed v'.hal.channels
unfolding ant_enable open_channels
unloadable_lem os v t missing cleared some_channel closed =
    let t0 = read_file v.hal.rx_shutdown_event_fd 8 ∷ t in
    let v0 = record v { hal = record v.hal { run_thread = true } } in
    ground (arith, unloadable_channels os v.hal.channels v0 t0 missing)

threadless_disable :
    (os : Os) (v : Vendor) (t : Trace) → v.hal.rx_thread ≡ 0 → (ant_disable os v t).0 ≡ pos 0
unfolding ant_disable
threadless_disable os v t none =
    let v0 = record v { hal = record v.hal { run_thread = false } } in
    ground (arith, close_channels_lem os v0 t)

-- `ant_disable` takes back no call.
length-disable_channels :
    (os : Os) (cs : List Channel) (v : Vendor) (t : Trace)
    → length t ≤ length (disable_channels os cs v t).2
unfolding disable_channels ant_disable_channel init_transport_bdroid
length-disable_channels os [] v t = omega arith
length-disable_channels os (c ∷ cs) v t =
    let (_, v', t') = ant_disable_channel os c v t in
    ground (arith, length-disable_channels os cs v' t')

length-ant_disable :
    (os : Os) (v : Vendor) (t : Trace)
    → v.hal.rx_thread ≡ 0
    → length t ≤ length (ant_disable os v t).2
unfolding ant_disable close_channels disable_out
length-ant_disable os v t none =
    let v0 = record v { hal = record v.hal { run_thread = false } } in
    ground (arith, length-disable_channels os v.hal.channels v0 t)

-- Where there is one channel, open only on a chip with power, a callback is registered, the lock call
-- of `doReset` does not return a negative number, and from then on a read succeeds or fails with EAGAIN,
-- as that of an event counter of 0 does, and the vendor library cannot be loaded: `doReset` tells the client RESETTING and then DISABLED, but leaves the status ENABLING.
pub do_reset_stays_enabling :
    (os : Os) (f : ℕ) (v : Vendor) (t : Trace)
    → IsPowered os v t
    → v.hal.state_callback ≡ some f
    → is_neg (os.ret (state_callback f radio_status_resetting ∷ t) (lock enabled_status_lock))
      ≡ false
    → ((u : Trace) → length t < length u → os.ret u load_vendor_library ≡ pos 0)
    → ((u : Trace) (fd : ℤ)
        → length t < length u
        → is_neg (os.ret u (read_file fd 8)) && not (is_eagain (os.errno (read_file fd 8 ∷ u)))
          ≡ false)
    → let (_, v', t') = do_reset os v t in
      (told t' ≡ radio_status_disabled ∷ radio_status_resetting ∷ told t)
      × (ant_radio_enabled_status v' ≡ radio_status_enabling)
unfolding do_reset restart told hal_status powered
do_reset_stays_enabling os f v t single registered locked missing cleared =
    let m = enabled_status_lock in
    let v0 = record v { hal = record v.hal { chip_resetting = true } } in
    let t1 = lock m ∷ state_callback f radio_status_resetting ∷ t in
    let v1 = record v {
      hal = record v.hal { chip_resetting = true; run_thread = false; rx_thread = 0 };
    } in
    let (_, v2, t2) = ant_disable os v1 t1 in
    let closed : All IsClosed v2.hal.channels =
      ground (arith, threadless_disable os v1 t1, ant_disable_lem os v1 t1) in
    let one : 1 ≤ length v2.hal.channels = ground (arith, (ant_disable-IsPowered os).at v1 t1) in
    let grown : length t < length t2 = omega (arith, length-ant_disable os v1 t1 refl) in
    let c = read_file v2.hal.rx_shutdown_event_fd 8 in
    let (_, v3, t3) = ant_enable os v2 t2 in
    let h4 = record v3.hal { chip_resetting = false } in
    ground (
      arith,
      notify_eq radio_status_resetting f v0.hal t registered,
      threadless_disable os v1 t1,
      ant_disable_lem os v1 t1,
      (ant_disable-IsPowered os).at v1 t1,
      disable_keeps os v1 t1 m,
      unloadable_lem os v2 t2 (missing (c ∷ t2) (omega arith))
          (cleared t2 v2.hal.rx_shutdown_event_fd grown) one closed,
      enable_keeps os v2 t2 m,
      notify_lem os radio_status_disabled h4 t3 m,
      told-notify radio_status_disabled f h4 t3,
    )

-- `ant_enable` where the channels are closed, the vendor library switches the power on and then does
-- not open the device.
unopenable_channels :
    (os : Os) (cs : List Channel) (v : Vendor) (t : Trace)
    → ((u : Trace) → os.ret u load_vendor_library ≢ pos 0)
    → ((u : Trace) → os.ret u find_vendor_interface ≢ pos 0)
    → ((u : Trace) → is_neg (os.ret u (vendor_power true)) ≡ false)
    → ((u : Trace) → os.ret u vendor_open ≡ minus_one)
    → 1 ≤ length cs
    → All IsClosed cs
    → let ((r, cs'), v', t') = enable_channels os cs v t in
      (r ≡ minus_one) × (v'.hal ≡ v.hal) × All IsClosed cs' × (powered os t' ≡ true)
unfolding enable_channels ant_enable_channel init_transport_bdroid power_on_and_open powered
unopenable_channels os [] v t loads finds powers fails one closed = ground arith
unopenable_channels os (c ∷ cs) v t loads finds powers fails one closed =
    let t1 = find_vendor_interface ∷ load_vendor_library ∷ t in
    let t2 = vendor_init ∷ t1 in
    ground
      (arith, loads t, finds (load_vendor_library ∷ t), powers t2, fails (vendor_power true ∷ t2))

closed_channels :
    (os : Os) (cs : List Channel) (v : Vendor) (t : Trace)
    → All IsClosed cs
    → disable_channels os cs v t ≡ (cs, v, t)
unfolding disable_channels ant_disable_channel
closed_channels os [] v t closed = refl
closed_channels os (c ∷ cs) v t closed = ground (arith, closed_channels os cs v t)

-- `ant_disable` does not touch the power where all channels are closed.
disable_keeps_power :
    (os : Os) (v : Vendor) (t : Trace)
    → All IsClosed v.hal.channels
    → powered os (ant_disable os v t).2 ≡ powered os t
unfolding ant_disable end_thread close_channels disable_out powered
disable_keeps_power os v t closed =
    let v0 = record v { hal = record v.hal { run_thread = false } } in
    let t0 = thread_join v.hal.rx_thread ∷ signal_eventfd v.hal.rx_shutdown_event_fd 1 ∷ t in
    ground (
      arith,
      closed_channels os v.hal.channels v0 t closed,
      closed_channels os v.hal.channels v0 t0 closed,
    )

powered-notify :
    (os : Os) (s : RadioStatus) (v : Vendor) (t : Trace)
    → let (_, v', t') = notify s v t in (v' ≡ v) × (powered os t' ≡ powered os t)
unfolding hal_notify powered
powered-notify os s v t = ground arith

-- Where there is one channel, which is closed, the lock can be had, reads do not return negative numbers,
-- and the vendor library is loaded and switches the power on but does not open the device: then
-- `ant_enable_radio` fails, and leaves the channel closed but the chip with power.
pub failed_open_keeps_power :
    (os : Os) (v : Vendor) (t : Trace)
    → length v.hal.channels ≡ 1
    → All IsClosed v.hal.channels
    → is_zero (os.ret t (lock enabled_status_lock)) ≡ true
    → ((u : Trace) (fd : ℤ) → is_neg (os.ret u (read_file fd 8)) ≡ false)
    → ((u : Trace) → os.ret u load_vendor_library ≢ pos 0)
    → ((u : Trace) → os.ret u find_vendor_interface ≢ pos 0)
    → ((u : Trace) → is_neg (os.ret u (vendor_power true)) ≡ false)
    → ((u : Trace) → os.ret u vendor_open ≡ minus_one)
    → let (r, v', t') = ant_enable_radio os v t in
      (r ≡ ant_status_failed) × All IsClosed v'.hal.channels × (powered os t' ≡ true)
unfolding ant_enable_radio power_up ant_enable open_channels powered
failed_open_keeps_power os v t single closed locked cleared loads finds powers fails =
    let t0 = lock enabled_status_lock ∷ t in
    let (_, v1, t1) = notify radio_status_enabling v t0 in
    let v2 = record v { hal = record v.hal { run_thread = true } } in
    let t2 = read_file v.hal.rx_shutdown_event_fd 8 ∷ t1 in
    let ((_, cs), v3, t3) = enable_channels os v.hal.channels v2 t2 in
    let v4 = record v3 { hal = record v3.hal { channels = cs } } in
    let (_, v5, t5) = ant_disable os v4 t3 in
    ground (
      arith,
      powered-notify os radio_status_enabling v t0,
      cleared t1 v.hal.rx_shutdown_event_fd,
      unopenable_channels os v.hal.channels v2 t2 loads finds powers fails,
      ant_disable_lem os v4 t3,
      disable_keeps_power os v4 t3,
      powered-notify os (ant_radio_enabled_status v5) v5 t5,
    )
