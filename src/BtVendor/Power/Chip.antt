-- ===== src/BtVendor/Power/Chip.antt =====
-- The power of the chip under `ant_enable` and `ant_disable` of
-- src/bt-vendor_vfs/ant_native_chardev.c, which has a single channel.
use linux_ant_hal.Base.{
  ◌≡◌, ◌⊎◌, Bool, true, false, List, [], ◌∷◌, arith, is_neg, pos, All, length, if◌then◌else◌,
}
use linux_ant_hal.Os.{Os, Trace, vendor_power, vendor_close, read_file, signal_eventfd, thread_join}
use linux_ant_hal.Os.Keeps.{Keeps}
use linux_ant_hal.Chardev.State.{Channel, Hal}
use linux_ant_hal.Chardev.Status.{IsClosed}
use linux_ant_hal.Chardev.Power.{start_rx_thread, disable_out}
use linux_ant_hal.BtVendor.State.{Vendor}
use linux_ant_hal.BtVendor.Transport.{init_transport_bdroid, power_on_and_open}
use linux_ant_hal.BtVendor.Power.{
  ant_disable_channel, ant_enable_channel, enable_channels, disable_channels, open_channels,
  ant_enable, close_channels, end_thread, ant_disable,
}

-- Whether the chip has power: what the latest switching of it that succeeded asked for.
unfoldable pub powered : Os → Trace → Bool
powered os [] = false
powered os (vendor_power on ∷ t) =
    let before = powered os t in if is_neg (os.ret t (vendor_power on)) then before else on
powered os (_ ∷ t) = powered os t

module _ (os : Os) where
  -- There is a single channel, and where it is open, the vendor library is loaded and the chip has
  -- power.
  abbrev pub IsPoweredWith : List Channel → Vendor → Trace → Type 0
  IsPoweredWith cs v t =
      (length cs ≡ 1) × (All IsClosed cs ⊎ ((v.vendor_interface ≡ true) × (powered os t ≡ true)))

  abbrev pub IsPowered : Vendor → Trace → Type 0
  IsPowered v t = IsPoweredWith v.hal.channels v t

  disable_channels-IsPowered :
      (cs : List Channel) (v : Vendor) (t : Trace)
      → length cs ≡ 1
      → let (cs', v', _) = disable_channels os cs v t in
        (length cs' ≡ 1) × All IsClosed cs' × (v'.hal ≡ v.hal)
  unfolding disable_channels ant_disable_channel init_transport_bdroid
  disable_channels-IsPowered [] v t one = ground arith
  disable_channels-IsPowered (c ∷ []) v t one = ground arith
  disable_channels-IsPowered (c ∷ d ∷ cs) v t one = ground arith

  enable_channels-IsPowered :
      (cs : List Channel) (v : Vendor) (t : Trace)
      → IsPoweredWith cs v t
      → let ((_, cs'), v', t') = enable_channels os cs v t in
        IsPoweredWith cs' v' t' × (v'.hal ≡ v.hal)
  unfolding enable_channels ant_enable_channel init_transport_bdroid power_on_and_open powered
  enable_channels-IsPowered [] v t p = ground arith
  enable_channels-IsPowered (c ∷ []) v t p = ground arith
  enable_channels-IsPowered (c ∷ d ∷ cs) v t p = ground arith

  start_rx_thread_quiet :
      (h : Hal) (t : Trace)
      → let (_, h', t') = start_rx_thread os h t in
        (h'.channels ≡ h.channels) × (powered os t' ≡ powered os t)
  unfolding start_rx_thread powered
  start_rx_thread_quiet h t = ground arith

  pub ant_enable-IsPowered : Keeps IsPowered (ant_enable os)
  unfolding ant_enable open_channels powered
  ant_enable-IsPowered = record {
    at = λ v t p.
        let t0 = read_file v.hal.rx_shutdown_event_fd 8 ∷ t in
        let v0 = record v { hal = record v.hal { run_thread = true } } in
        let ((_, cs), v1, t1) = enable_channels os v.hal.channels v0 t0 in
        ground (
          arith,
          enable_channels-IsPowered v.hal.channels v0 t0,
          start_rx_thread_quiet (record v1.hal { channels = cs }) t1,
        );
  }

  pub close_channels-IsPowered : Keeps IsPowered (close_channels os)
  unfolding close_channels disable_out
  close_channels-IsPowered = record {
    at = λ v t p. ground (arith, disable_channels-IsPowered v.hal.channels v t);
  }

  pub ant_disable-IsPowered : Keeps IsPowered (ant_disable os)
  unfolding ant_disable end_thread disable_out powered
  ant_disable-IsPowered = record {
    at = λ v t p.
        let v0 = record v { hal = record v.hal { run_thread = false } } in
        let t0 = thread_join v.hal.rx_thread ∷ signal_eventfd v.hal.rx_shutdown_event_fd 1 ∷ t in
        ground (arith, close_channels-IsPowered.at v0 t, close_channels-IsPowered.at v0 t0);
  }

  disable_channels_off :
      (cs : List Channel) (v : Vendor) (t : Trace)
      → length cs ≡ 1
      → ¬ All IsClosed cs
      → v.vendor_interface ≡ true
      → ((u : Trace) → is_neg (os.ret u (vendor_power false)) ≡ false)
      → let (_, v', t') = disable_channels os cs v t in
        (powered os t' ≡ false) × (v'.vendor_interface ≡ false)
  unfolding disable_channels ant_disable_channel init_transport_bdroid powered
  disable_channels_off [] v t one opened loaded off = ground arith
  disable_channels_off (c ∷ []) v t one opened loaded off = ground (arith, off (vendor_close ∷ t))
  disable_channels_off (c ∷ d ∷ cs) v t one opened loaded off = ground arith

  close_channels_off :
      (v : Vendor) (t : Trace)
      → IsPowered v t
      → ¬ All IsClosed v.hal.channels
      → ((u : Trace) → is_neg (os.ret u (vendor_power false)) ≡ false)
      → let (_, v', t') = close_channels os v t in
        (powered os t' ≡ false)
        × (v'.vendor_interface ≡ false)
        × All IsClosed v'.hal.channels
        × (v'.hal.run_thread ≡ v.hal.run_thread)
  unfolding close_channels disable_out
  close_channels_off v t p opened off = ground (
    arith,
    disable_channels-IsPowered v.hal.channels v t,
    disable_channels_off v.hal.channels v t,
    off,
  )

  -- Where the single channel is open on a chip with power and switching the power off succeeds, an
  -- `ant_disable` that returns 0 leaves the chip without power.
  pub ant_disable_off :
      (v : Vendor) (t : Trace)
      → IsPowered v t
      → ¬ All IsClosed v.hal.channels
      → ((u : Trace) → is_neg (os.ret u (vendor_power false)) ≡ false)
      → (ant_disable os v t).0 ≡ pos 0
      → let (_, v', t') = ant_disable os v t in
        (powered os t' ≡ false) × (v'.vendor_interface ≡ false) × All IsClosed v'.hal.channels
  unfolding ant_disable end_thread disable_out powered
  ant_disable_off v t p opened off done =
      let v0 = record v { hal = record v.hal { run_thread = false } } in
      let t0 = thread_join v.hal.rx_thread ∷ signal_eventfd v.hal.rx_shutdown_event_fd 1 ∷ t in
      ground (arith, close_channels_off v0 t p opened off, close_channels_off v0 t0 p opened off)
