-- ===== src/BtVendor/Power/Lemmas.antt =====
-- What `ant_enable` and `ant_disable` leave behind, what they tell the client, and the locks.
use linux_ant_hal.Base.{
  ◌≡◌, ◌≢◌, refl, ◌⊎◌, Bool, true, false, List, [], ◌∷◌, arith, ℤ, pos, minus_one, is_neg, All,
}
use linux_ant_hal.Types.{RadioStatus}
use linux_ant_hal.Os.{
  Os, Trace, Mutex, signal_eventfd, thread_join, thread_create, read_file, holds, told,
}
use linux_ant_hal.Os.Keeps.{
  Keeps, keeps_rules, Keeps-bind, Keeps-if, Keeps-pure, Keeps-call, Keeps-tell, Keeps-modify,
}
use linux_ant_hal.Chardev.State.{Channel, Hal}
use linux_ant_hal.Chardev.Status.{IsOpen, IsClosed}
use linux_ant_hal.Chardev.Power.{start_rx_thread, disable_out}
use linux_ant_hal.BtVendor.State.{Vendor, on_hal}
use linux_ant_hal.BtVendor.Transport.{init_transport_bdroid, power_on_and_open}
use linux_ant_hal.BtVendor.Power.{
  ant_disable_channel, ant_enable_channel, enable_channels, disable_channels, open_channels,
  ant_enable, close_channels, end_thread, ant_disable,
}

module _ (os : Os) (m : Mutex) (b : Bool) (l : List RadioStatus) where
  -- who holds a mutex, and what the client was told
  abbrev Same : Vendor → Trace → Type 0
  Same v t = (holds os m t ≡ b) × (told t ≡ l)

  init_transport-Keeps : (on : Bool) → Keeps Same (init_transport_bdroid os on)
  unfolding init_transport_bdroid power_on_and_open holds told
  init_transport-Keeps true = search (keeps_rules, Keeps-call, Keeps-tell, Keeps-modify) depth 30
  init_transport-Keeps false = search (keeps_rules, Keeps-call, Keeps-tell, Keeps-modify) depth 30

  disable_channel-Keeps : (c : Channel) → Keeps Same (ant_disable_channel os c)
  unfolding ant_disable_channel
  disable_channel-Keeps c = search (keeps_rules, init_transport-Keeps) depth 20

  enable_channel-Keeps : (c : Channel) → Keeps Same (ant_enable_channel os c)
  unfolding ant_enable_channel
  enable_channel-Keeps c = search (keeps_rules, init_transport-Keeps) depth 20

  disable_channels-Keeps : (cs : List Channel) → Keeps Same (disable_channels os cs)
  unfolding disable_channels
  disable_channels-Keeps [] = search keeps_rules
  disable_channels-Keeps (c ∷ cs) =
      Keeps-bind _ _ (disable_channel-Keeps c)
        (λ c'. Keeps-bind _ _ (disable_channels-Keeps cs) (λ cs'. Keeps-pure (c' ∷ cs')))

  enable_channels-Keeps : (cs : List Channel) → Keeps Same (enable_channels os cs)
  unfolding enable_channels
  enable_channels-Keeps [] = search keeps_rules
  enable_channels-Keeps (c ∷ cs) = Keeps-bind _ _ (enable_channel-Keeps c) (λ r.
      Keeps-if (is_neg r.0) _ _ (Keeps-pure (minus_one, r.1 ∷ cs))
        (Keeps-bind _ _ (enable_channels-Keeps cs) (λ r'. Keeps-pure (r'.0, r.1 ∷ r'.1))))

  start_rx_thread-Keeps : Keeps Same (on_hal (start_rx_thread os))
  unfolding start_rx_thread holds told
  start_rx_thread-Keeps = record { at = λ v t p. ground arith }

  disable_out-Keeps : (r : ℤ) → Keeps Same (on_hal (disable_out os r))
  unfolding disable_out
  disable_out-Keeps r = record { at = λ v t p. p }

  pub ant_enable-Keeps : Keeps Same (ant_enable os)
  unfolding ant_enable open_channels holds told
  ant_enable-Keeps =
      search (keeps_rules, Keeps-call, Keeps-modify, enable_channels-Keeps, start_rx_thread-Keeps)
        depth 30

  pub ant_disable-Keeps : Keeps Same (ant_disable os)
  unfolding ant_disable close_channels end_thread holds told
  ant_disable-Keeps =
      search (keeps_rules, Keeps-call, Keeps-modify, disable_channels-Keeps, disable_out-Keeps)
        depth 30

module _ (os : Os) where
  enable_channel_lem :
      (c : Channel) (v : Vendor) (t : Trace)
      → let ((r, c'), v', _) = ant_enable_channel os c v t in
        (v'.hal ≡ v.hal) × (((r ≡ pos 0) × IsOpen c') ⊎ (r ≡ minus_one))
  unfolding ant_enable_channel init_transport_bdroid power_on_and_open
  enable_channel_lem c v t = ground arith

  enable_channels_lem :
      (cs : List Channel) (v : Vendor) (t : Trace)
      → let ((r, cs'), v', _) = enable_channels os cs v t in
        (v'.hal ≡ v.hal) × (((r ≡ pos 0) × All IsOpen cs') ⊎ (r ≡ minus_one))
  unfolding enable_channels
  enable_channels_lem [] v t = ground arith
  enable_channels_lem (c ∷ cs) v t =
      let (_, v', t') = ant_enable_channel os c v t in
      ground (arith, enable_channel_lem c v t, enable_channels_lem cs v' t')

  disable_channel_lem :
      (c : Channel) (v : Vendor) (t : Trace)
      → let (c', v', _) = ant_disable_channel os c v t in (v'.hal ≡ v.hal) × IsClosed c'
  unfolding ant_disable_channel init_transport_bdroid
  disable_channel_lem c v t = ground arith

  disable_channels_lem :
      (cs : List Channel) (v : Vendor) (t : Trace)
      → let (cs', v', _) = disable_channels os cs v t in (v'.hal ≡ v.hal) × All IsClosed cs'
  unfolding disable_channels
  disable_channels_lem [] v t = (refl, tt)
  disable_channels_lem (c ∷ cs) v t =
      let (_, v', t') = ant_disable_channel os c v t in
      ground (arith, disable_channel_lem c v t, disable_channels_lem cs v' t')

  pub start_rx_thread_lem :
      (h : Hal) (t : Trace)
      → ((u : Trace) → os.thread u ≢ 0)
      → let (r, h', _) = start_rx_thread os h t in
        (h'.chip_resetting ≡ h.chip_resetting)
        × (h'.state_callback ≡ h.state_callback)
        × (h'.channels ≡ h.channels)
        × (h'.rx_thread ≢ 0)
        × (((r ≡ pos 0) × (h'.run_thread ≡ true)) ⊎ (r ≡ minus_one))
  unfolding start_rx_thread
  start_rx_thread_lem h t handles = ground (arith, handles (thread_create ∷ t))

  -- `ant_enable` returns 0 or -1. Where it returns 0 and `pthread_create` stores handles other than 0,
  -- every channel is open, and the receive thread exists and has not been told to stop.
  pub ant_enable_lem :
      (v : Vendor) (t : Trace)
      → ((u : Trace) → os.thread u ≢ 0)
      → let (r, v', _) = ant_enable os v t in
        (v'.hal.chip_resetting ≡ v.hal.chip_resetting)
        × (v'.hal.state_callback ≡ v.hal.state_callback)
        × (((r ≡ pos 0)
              × All IsOpen v'.hal.channels
              × (v'.hal.rx_thread ≢ 0)
              × (v'.hal.run_thread ≡ true))
            ⊎ (r ≡ minus_one))
  unfolding ant_enable open_channels
  ant_enable_lem v t handles =
      let t0 = read_file v.hal.rx_shutdown_event_fd 8 ∷ t in
      let v0 = record v { hal = record v.hal { run_thread = true } } in
      let ((_, cs), v1, t1) = enable_channels os v.hal.channels v0 t0 in
      ground (
        arith,
        enable_channels_lem v.hal.channels v0 t0,
        start_rx_thread_lem (record v1.hal { channels = cs }) t1 handles,
      )

  pub close_channels_lem :
      (v : Vendor) (t : Trace)
      → let (r, v', _) = close_channels os v t in
        (v'.hal.chip_resetting ≡ v.hal.chip_resetting)
        × (v'.hal.state_callback ≡ v.hal.state_callback)
        × (v'.hal.run_thread ≡ v.hal.run_thread)
        × (v'.hal.rx_thread ≡ 0)
        × All IsClosed v'.hal.channels
        × (r ≡ pos 0)
  unfolding close_channels disable_out
  close_channels_lem v t = ground (arith, disable_channels_lem v.hal.channels v t)

  -- After `ant_disable` the receive thread is told to stop and its handle is cleared. Where 0 is
  -- returned every channel is closed; otherwise -1 is returned and no channel was touched.
  pub ant_disable_lem :
      (v : Vendor) (t : Trace)
      → let (r, v', _) = ant_disable os v t in
        (v'.hal.chip_resetting ≡ v.hal.chip_resetting)
        × (v'.hal.state_callback ≡ v.hal.state_callback)
        × (v'.hal.run_thread ≡ false)
        × (v'.hal.rx_thread ≡ 0)
        × (((r ≡ pos 0) × All IsClosed v'.hal.channels)
            ⊎ ((r ≡ minus_one) × (v'.hal.channels ≡ v.hal.channels)))
  unfolding ant_disable end_thread disable_out
  ant_disable_lem v t =
      let v0 = record v { hal = record v.hal { run_thread = false } } in
      let t0 = thread_join v.hal.rx_thread ∷ signal_eventfd v.hal.rx_shutdown_event_fd 1 ∷ t in
      ground (arith, close_channels_lem v0 t, close_channels_lem v0 t0)
