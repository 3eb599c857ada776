-- ===== src/Chardev/Power/Enable.antt =====
-- What `ant_enable` leaves behind, by the value that it returns.
use linux_ant_hal.Base.{◌≡◌, ◌≢◌, refl, ◌⊎◌, true, List, [], ◌∷◌, arith, ℤ, pos, minus_one, All}
use linux_ant_hal.Os.{Os, Trace, Mutex, read_file, thread_create, holds, told}
use linux_ant_hal.Chardev.State.{Channel, Hal}
use linux_ant_hal.Chardev.Status.{IsOpen}
use linux_ant_hal.Chardev.Power.{
  ant_enable_channel, enable_channels, start_rx_thread, enable_out, ant_enable,
}

-- An `int` result is 0 for success and -1 for failure, and nothing else.
abbrev pub IsResult : ℤ → Type 0
IsResult r = (r ≡ pos 0) ⊎ (r ≡ minus_one)

module _ (os : Os) where
  enable_channel_lem :
      (c : Channel) (h : Hal) (t : Trace)
      → let ((r, c'), h', _) = ant_enable_channel os c h t in
        (h' ≡ h) × (((r ≡ pos 0) × IsOpen c') ⊎ (r ≡ minus_one))
  unfolding ant_enable_channel
  enable_channel_lem c h t = ground arith

  pub enable_channels_lem :
      (cs : List Channel) (h : Hal) (t : Trace)
      → let ((r, cs'), h', _) = enable_channels os cs h t in
        (h' ≡ h) × (((r ≡ pos 0) × All IsOpen cs') ⊎ (r ≡ minus_one))
  unfolding enable_channels
  enable_channels_lem [] h t = ground arith
  enable_channels_lem (c ∷ cs) h t =
      let (_, h', t') = ant_enable_channel os c h t in
      ground (arith, enable_channel_lem c h t, enable_channels_lem cs h' t')

  holds-enable_channels :
      (cs : List Channel) (h : Hal) (t : Trace) (m : Mutex)
      → holds os m (enable_channels os cs h t).2 ≡ holds os m t
  unfolding enable_channels ant_enable_channel holds
  holds-enable_channels [] h t m = refl
  holds-enable_channels (c ∷ cs) h t m =
      let (_, h', t') = ant_enable_channel os c h t in
      ground (arith, holds-enable_channels cs h' t' m)

  told-enable_channels :
      (cs : List Channel) (h : Hal) (t : Trace) → told (enable_channels os cs h t).2 ≡ told t
  unfolding enable_channels ant_enable_channel told
  told-enable_channels [] h t = refl
  told-enable_channels (c ∷ cs) h t =
      let (_, h', t') = ant_enable_channel os c h t in ground (arith, told-enable_channels cs h' t')

  -- Where every channel is open already, nothing is asked of the system.
  pub enable_channels_open :
      (cs : List Channel) (h : Hal) (t : Trace)
      → All IsOpen cs
      → enable_channels os cs h t ≡ ((pos 0, cs), h, t)
  unfolding enable_channels ant_enable_channel
  enable_channels_open [] h t o = refl
  enable_channels_open (c ∷ cs) h t o = ground (arith, enable_channels_open cs h t)

  start_rx_thread_lem :
      (h : Hal) (t : Trace)
      → let (r, h', _) = start_rx_thread os h t in
        (h'.chip_resetting ≡ h.chip_resetting)
        × (h'.state_callback ≡ h.state_callback)
        × (h'.channels ≡ h.channels)
        × (((r ≡ pos 0) × (h'.run_thread ≡ true)) ⊎ (r ≡ minus_one))
  unfolding start_rx_thread
  start_rx_thread_lem h t = ground arith

  module _ (h : Hal) (t : Trace) where
    -- the states and traces on the way through `ant_enable`
    abbrev after_read : Trace
    after_read = read_file h.rx_shutdown_event_fd 8 ∷ t

    abbrev running : Hal
    running = record h { run_thread = true }

    -- `ant_enable` returns 0 or -1. Where it returns 0, every channel is open, and the receive
    -- thread, if there is one, has not been told to stop.
    pub ant_enable_lem :
        let (r, h', _) = ant_enable os h t in
        (h'.chip_resetting ≡ h.chip_resetting)
        × (h'.state_callback ≡ h.state_callback)
        × (((r ≡ pos 0) × All IsOpen h'.channels × ((h'.rx_thread ≡ 0) ⊎ (h'.run_thread ≡ true)))
            ⊎ (r ≡ minus_one))
    unfolding ant_enable enable_out
    ant_enable_lem =
        let ((_, cs), h1, t1) = enable_channels os h.channels running after_read in
        ground (
          arith,
          enable_channels_lem h.channels running after_read,
          start_rx_thread_lem (record h1 { channels = cs }) t1,
        )

    -- Where `pthread_create` stores handles other than 0, success means that there is one.
    pub ant_enable_thread :
        ((u : Trace) → os.thread u ≢ 0)
        → (ant_enable os h t).0 ≡ pos 0
        → (ant_enable os h t).1.rx_thread ≢ 0
    unfolding ant_enable enable_out start_rx_thread
    ant_enable_thread handles done =
        let ((_, cs), h1, t1) = enable_channels os h.channels running after_read in
        ground
          (arith, enable_channels_lem h.channels running after_read, handles (thread_create ∷ t1))

    -- A mutex is held after `ant_enable` exactly if it was before.
    pub holds-ant_enable : (m : Mutex) → holds os m (ant_enable os h t).2 ≡ holds os m t
    unfolding ant_enable enable_out start_rx_thread holds
    holds-ant_enable m = ground (arith, holds-enable_channels h.channels running after_read m)

    -- `ant_enable` calls no state callback.
    pub told-ant_enable : told (ant_enable os h t).2 ≡ told t
    unfolding ant_enable enable_out start_rx_thread told
    told-ant_enable = ground (arith, told-enable_channels h.channels running after_read)
