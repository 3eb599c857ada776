-- ===== src/Chardev/Power/Disable.antt =====
-- What `ant_disable` leaves behind, by the value that it returns.
use linux_ant_hal.Base.{
  ◌≡◌, refl, ◌⊎◌, Bool, true, false, not, ◌&&◌, ◌||◌, ◌==◌, is_neg, List, [], ◌∷◌, arith, pos,
  minus_one, All,
}
use linux_ant_hal.Os.{Os, Trace, Mutex, signal_eventfd, thread_join, holds, told}
use linux_ant_hal.Chardev.State.{Channel, Hal}
use linux_ant_hal.Chardev.Status.{IsClosed}
use linux_ant_hal.Chardev.Power.{
  ant_disable_channel, disable_channels, close_channels, disable_out, ant_disable,
}

module _ (os : Os) where
  disable_channels_lem :
      (cs : List Channel) (h : Hal) (t : Trace)
      → let (cs', h', _) = disable_channels os cs h t in (h' ≡ h) × All IsClosed cs'
  unfolding disable_channels ant_disable_channel
  disable_channels_lem [] h t = (refl, tt)
  disable_channels_lem (c ∷ cs) h t =
      let (_, h', t') = ant_disable_channel os c h t in
      ground (arith, disable_channels_lem cs h' t')

  holds-disable_channels :
      (cs : List Channel) (h : Hal) (t : Trace) (m : Mutex)
      → holds os m (disable_channels os cs h t).2 ≡ holds os m t
  unfolding disable_channels ant_disable_channel holds
  holds-disable_channels [] h t m = refl
  holds-disable_channels (c ∷ cs) h t m =
      let (_, h', t') = ant_disable_channel os c h t in
      ground (arith, holds-disable_channels cs h' t' m)

  told-disable_channels :
      (cs : List Channel) (h : Hal) (t : Trace) → told (disable_channels os cs h t).2 ≡ told t
  unfolding disable_channels ant_disable_channel told
  told-disable_channels [] h t = refl
  told-disable_channels (c ∷ cs) h t =
      let (_, h', t') = ant_disable_channel os c h t in
      ground (arith, told-disable_channels cs h' t')

  told-close_channels : (h : Hal) (t : Trace) → told (close_channels os h t).2 ≡ told t
  unfolding close_channels disable_out
  told-close_channels h t = told-disable_channels h.channels h t

  close_channels_lem :
      (h : Hal) (t : Trace)
      → let (r, h', _) = close_channels os h t in
        (h'.chip_resetting ≡ h.chip_resetting)
        × (h'.state_callback ≡ h.state_callback)
        × (h'.run_thread ≡ h.run_thread)
        × (h'.rx_thread ≡ 0)
        × All IsClosed h'.channels
        × (r ≡ pos 0)
  unfolding close_channels disable_out
  close_channels_lem h t = ground (arith, disable_channels_lem h.channels h t)

  holds-close_channels :
      (h : Hal) (t : Trace) (m : Mutex) → holds os m (close_channels os h t).2 ≡ holds os m t
  unfolding close_channels disable_out
  holds-close_channels h t m = holds-disable_channels h.channels h t m

  module _ (h : Hal) (t : Trace) where
    abbrev stopped : Hal
    stopped = record h { run_thread = false }

    abbrev signalled : Trace
    signalled = signal_eventfd h.rx_shutdown_event_fd 1 ∷ t

    abbrev joined : Trace
    joined = thread_join h.rx_thread ∷ signalled

    -- After `ant_disable` the receive thread is told to stop and its handle is cleared, whatever
    -- went wrong. Where 0 is returned every channel is closed; otherwise -1 is returned and no
    -- channel was touched.
    pub ant_disable_lem :
        let (r, h', _) = ant_disable os h t in
        (h'.chip_resetting ≡ h.chip_resetting)
        × (h'.state_callback ≡ h.state_callback)
        × (h'.run_thread ≡ false)
        × (h'.rx_thread ≡ 0)
        × (((r ≡ pos 0) × All IsClosed h'.channels)
            ⊎ ((r ≡ minus_one) × (h'.channels ≡ h.channels)))
    unfolding ant_disable disable_out
    ant_disable_lem =
        ground (arith, close_channels_lem stopped t, close_channels_lem stopped joined)

    -- There is no receive thread, or it could be signalled and joined.
    abbrev pub can_stop : Bool
    can_stop =
        h.rx_thread == 0
        || (not (is_neg (os.ret t (signal_eventfd h.rx_shutdown_event_fd 1)))
            && not (is_neg (os.ret signalled (thread_join h.rx_thread))))

    -- `ant_disable` closes every channel, but where the receive thread cannot be signalled or joined:
    -- then it touches none.
    pub ant_disable-channels :
        let (_, h', _) = ant_disable os h t in
        ((can_stop ≡ true) × All IsClosed h'.channels)
        ⊎ ((can_stop ≡ false) × (h'.channels ≡ h.channels))
    unfolding ant_disable disable_out
    ant_disable-channels =
        ground (arith, close_channels_lem stopped t, close_channels_lem stopped joined)

    -- A mutex is held after `ant_disable` exactly if it was before.
    pub holds-ant_disable : (m : Mutex) → holds os m (ant_disable os h t).2 ≡ holds os m t
    unfolding ant_disable disable_out holds
    holds-ant_disable m =
        ground (arith, holds-close_channels stopped t m, holds-close_channels stopped joined m)

    -- `ant_disable` calls no state callback.
    pub told-ant_disable : told (ant_disable os h t).2 ≡ told t
    unfolding ant_disable disable_out told
    told-ant_disable =
        ground (arith, told-close_channels stopped t, told-close_channels stopped joined)
