-- ===== src/BtVendor/Thread.antt =====
-- src/bt-vendor_vfs/ant_rx_chardev.c: `fnRxThread`, the receive thread.
--
-- `none` is a loop that has not ended with the rounds that it was given.
pub mod Locks
use linux_ant_hal.Base.{
  ℕ, zero, suc, ◌+◌, Bool, true, false, not, ◌&&◌, Option, none, some, List, [], ◌∷◌, ◌++◌, map, ℤ,
  pos, negsuc, is_neg, is_zero, length, set, if◌then◌else◌,
}
use linux_ant_hal.Types.{radio_status_disabling}
use linux_ant_hal.Os.{
  Os, pollin, pollnval, pollerr, M, ◌>>=◌, ◌>>◌, pure, get, modify, after, call, tell,
  enabled_status_lock, trylock, unlock, poll_files, thread_create,
}
use linux_ant_hal.Chardev.State.{Channel, channel_at}
use linux_ant_hal.Chardev.Rx.{
  RxBuffer, set_flow_control as hal_set_flow_control, read_channel_msg as hal_read_channel_msg,
}
use linux_ant_hal.Chardev.Thread.{
  Revents, Buffers, put_buffer, are_all_flags_set, event_data_available, event_chip_shutdown,
  event_hard_reset, ant_poll_timeout, keepalive_timeout, set_waiting, Outcome, resets, goes_on,
  shutdown_event as hal_shutdown_event,
}
use linux_ant_hal.BtVendor.State.{Vendor, on_hal}
use linux_ant_hal.BtVendor.Power.{set_running, set_channels, ant_disable}
use linux_ant_hal.BtVendor.Radio.{notify, notify_status, forget_rx_thread, do_reset}

-- what follows the events of a channel
pub and_then : (Buffers → M Vendor (Option Outcome)) → Option Outcome → M Vendor (Option Outcome)
and_then rest none = pure none
and_then rest (some (resets bs)) = pure (some (resets bs))
and_then rest (some (goes_on bs)) = rest bs

-- What follows `readChannelMsg` on a channel. Unlike in src/vfs, a failed read tells the loop to end
-- and does not reset the chip.
pub message_read : Buffers → ℕ → Option (ℤ × Channel × RxBuffer) → M Vendor (Option Outcome)
message_read bs i none = pure none
message_read bs i (some (r, c, b)) = do
  v ← get
  set_channels (set v.hal.channels i c)
  if is_neg r then set_running false else pure tt
  pure (some (goes_on (put_buffer bs i b)))

module _ (os : Os) where
  abbrev pub set_flow_control : Channel → ℕ → M Vendor (ℤ × Channel)
  set_flow_control c setting = on_hal (hal_set_flow_control os c setting)

  abbrev pub read_channel_msg : ℕ → RxBuffer → Channel → M Vendor (Option (ℤ × Channel × RxBuffer))
  read_channel_msg fuel b c = on_hal (hal_read_channel_msg os fuel b c)

  abbrev pub shutdown_event : Revents → M Vendor (Unit {0})
  shutdown_event v = on_hal (hal_shutdown_event os v)

  -- the events of one channel
  pub channel_event : ℕ → Revents → Buffers → ℕ → M Vendor (Option Outcome)
  channel_event fuel f bs i =
      if are_all_flags_set f event_hard_reset
      then pure (some (resets bs))
      else if are_all_flags_set f event_chip_shutdown
      then pure (some (resets bs))
      else if are_all_flags_set f event_data_available
      then (do
        on_hal (set_waiting false)
        v ← get
        r ← read_channel_msg fuel (bs i) (channel_at v.hal i)
        message_read bs i r)
      else if are_all_flags_set f (pollnval ∷ [])
      then pure (some (resets bs))
      else if are_all_flags_set f (pollerr ∷ [])
      then pure (some (resets bs))
      else pure (some (goes_on bs))

  -- the loop over so many channels, from channel `i` on
  pub channel_events : ℕ → (ℕ → Revents) → ℕ → ℕ → Buffers → M Vendor (Option Outcome)
  channel_events fuel f i zero bs = pure (some (goes_on bs))
  channel_events fuel f i (suc n) bs =
      let rest = channel_events fuel f (i + 1) n in
      do r ← channel_event fuel (f i) bs i; and_then rest r

  -- what follows the events of all channels, `n` of them
  pub channels_done : (ℕ → Revents) → ℕ → Option Outcome → M Vendor (Option Outcome)
  channels_done f n none = pure none
  channels_done f n (some (resets bs)) = pure (some (resets bs))
  channels_done f n (some (goes_on bs)) = do shutdown_event (f n); pure (some (goes_on bs))

  -- What follows `poll`. On the first timeout a keepalive message is sent, by a thread of its own; on
  -- the second the chip is reset.
  pub polled : ℕ → Buffers → ℤ → M Vendor (Option Outcome)
  polled fuel bs (negsuc _) = pure (some (resets bs))
  polled fuel bs (pos zero) = do
    v ← get
    if v.hal.waiting_for_keepalive_response
        then pure (some (resets bs))
        else do on_hal (set_waiting true); tell thread_create; pure (some (goes_on bs))
  polled fuel bs (pos (suc _)) = do
    v ← get
    f ← after os.revents
    r ← channel_events fuel f 0 (length v.hal.channels) bs
    channels_done f (length v.hal.channels) r

  -- one round of the loop, on the descriptors that are polled
  pub round : ℕ → List ℤ → Buffers → M Vendor (Option Outcome)
  round fuel fds bs = do
    v ← get
    n ← call os (
        poll_files fds
          (if v.hal.waiting_for_keepalive_response then keepalive_timeout else ant_poll_timeout))
    runs ← after os.keeps_running
    set_running (v.hal.run_thread && runs)
    polled fuel bs n

  -- `fnRxThread` after the loop: where nobody else is switching the radio, the thread has crashed.
  unfoldable pub clean_up : M Vendor (Unit {0})
  clean_up = do
    r ← call os (trylock enabled_status_lock)
    if not (is_zero r) then pure tt else do
      forget_rx_thread
      notify radio_status_disabling
      ant_disable os
      notify_status
      tell (unlock enabled_status_lock)

  -- what follows a round
  pub round_done :
      (Buffers → M Vendor (Option Buffers)) → Option Outcome → M Vendor (Option Buffers)
  round_done again none = pure none
  round_done again (some (resets bs)) = do do_reset os; pure (some bs)
  round_done again (some (goes_on bs)) = again bs

  -- the loop
  pub rx_rounds : ℕ → ℕ → List ℤ → Buffers → M Vendor (Option Buffers)
  rx_rounds fuel zero fds bs = pure none
  rx_rounds fuel (suc rounds) fds bs =
      let again = rx_rounds fuel rounds fds in
      do
        v ← get
        if not v.hal.run_thread
            then (do clean_up; pure (some bs))
            else do r ← round fuel fds bs; round_done again r

  -- `fnRxThread`, with the buffers as the latest thread left them
  pub fn_rx_thread : ℕ → ℕ → Buffers → M Vendor (Option Buffers)
  fn_rx_thread fuel rounds bs = do
    v ← get
    on_hal (set_waiting false)
    rx_rounds fuel rounds (map (λ c. c.fd) v.hal.channels ++ (v.hal.rx_shutdown_event_fd ∷ [])) bs
