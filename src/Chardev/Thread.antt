-- ===== src/Chardev/Thread.antt =====
-- src/vfs/ant_rx_chardev.c: `fnRxThread`, the receive thread.
--
-- `none` is a loop that has not ended with the rounds that it was given.
pub mod Recovery
pub mod Locks
pub mod Reads
pub mod Rows
mod Tests
use linux_ant_hal.Base.{
  ℕ, zero, suc, ◌+◌, Bool, true, false, not, ◌&&◌, ◌||◌, Option, none, some, List, [], ◌∷◌, ◌++◌,
  map, ℤ, pos, negsuc, is_neg, is_zero, length, set, ◌==◌, if◌then◌else◌,
}
use linux_ant_hal.Types.{radio_status_disabling}
use linux_ant_hal.Os.{
  Os, Flag, pollin, pollrdnorm, pollhup, pollerr, pollpri, pollrdhup, pollnval, other_flag, M,
  ◌>>=◌, ◌>>◌, pure, get, modify, after, call, tell, enabled_status_lock, trylock, unlock,
  poll_files, read_file, thread_create,
}
use linux_ant_hal.Chardev.State.{Channel, Hal, channel_at}
use linux_ant_hal.Chardev.Status.{ant_radio_enabled_status}
use linux_ant_hal.Chardev.Power.{ant_disable}
use linux_ant_hal.Chardev.Radio.{notify, do_reset}
use linux_ant_hal.Chardev.Rx.{RxBuffer, read_channel_msg}

-- The flags of one descriptor, and the receive buffers by the number of the channel.
abbrev pub Revents : Type 0
Revents = Flag → Bool

abbrev pub Buffers : Type 0
Buffers = ℕ → RxBuffer

abbrev pub put_buffer : Buffers → ℕ → RxBuffer → Buffers
put_buffer bs i b j = if j == i then b else bs j

pub are_all_flags_set : Revents → List Flag → Bool
are_all_flags_set value [] = true
are_all_flags_set value (f ∷ flags) = value f && are_all_flags_set value flags

-- `revents != 0`
abbrev pub is_any_flag_set : Revents → Bool
is_any_flag_set v =
    v pollin
    || (v pollrdnorm
        || (v pollhup
            || (v pollerr || (v pollpri || (v pollrdhup || (v pollnval || v other_flag))))))

abbrev pub event_data_available : List Flag
event_data_available = pollin ∷ pollrdnorm ∷ []

abbrev pub event_chip_shutdown : List Flag
event_chip_shutdown = pollhup ∷ []

abbrev pub event_hard_reset : List Flag
event_hard_reset = pollerr ∷ pollpri ∷ pollrdhup ∷ []

abbrev pub ant_poll_timeout : ℕ
ant_poll_timeout = 30000

abbrev pub keepalive_timeout : ℕ
keepalive_timeout = 5000

abbrev pub set_waiting : Bool → M Hal (Unit {0})
set_waiting w = modify (λ s. record s { waiting_for_keepalive_response = w })

-- What is left to do after a part of a round: reset and end the thread, or go on.
pub data Outcome : Type 0 where
  resets : Buffers → Outcome
  goes_on : Buffers → Outcome

-- what follows `readChannelMsg` on a channel
pub message_read : Buffers → ℕ → Option (ℤ × Channel × RxBuffer) → M Hal (Option Outcome)
message_read bs i none = pure none
message_read bs i (some (r, c, b)) = do
  modify (λ s. record s { channels = set s.channels i c })
  pure (some ((if is_neg r then resets else goes_on) (put_buffer bs i b)))

-- what follows the events of a channel
pub and_then : (Buffers → M Hal (Option Outcome)) → Option Outcome → M Hal (Option Outcome)
and_then rest none = pure none
and_then rest (some (resets bs)) = pure (some (resets bs))
and_then rest (some (goes_on bs)) = rest bs

module _ (os : Os) where
  -- the events of one channel
  pub channel_event : ℕ → Revents → Buffers → ℕ → M Hal (Option Outcome)
  channel_event fuel v bs i =
      if are_all_flags_set v event_hard_reset
      then pure (some (resets bs))
      else if are_all_flags_set v event_chip_shutdown
      then pure (some (resets bs))
      else if are_all_flags_set v event_data_available
      then (do
        set_waiting false
        h ← get
        r ← read_channel_msg os fuel (bs i) (channel_at h i)
        message_read bs i r)
      else if are_all_flags_set v (pollnval ∷ [])
      then pure (some (resets bs))
      else if are_all_flags_set v (pollerr ∷ [])
      then pure (some (resets bs))
      else pure (some (goes_on bs))

  -- the loop over so many channels, from channel `i` on
  pub channel_events : ℕ → (ℕ → Revents) → ℕ → ℕ → Buffers → M Hal (Option Outcome)
  channel_events fuel v i zero bs = pure (some (goes_on bs))
  channel_events fuel v i (suc n) bs =
      let rest = channel_events fuel v (i + 1) n in
      do r ← channel_event fuel (v i) bs i; and_then rest r

  -- the event of the descriptor that signals shutdown
  pub shutdown_event : Revents → M Hal (Unit {0})
  shutdown_event v =
      if are_all_flags_set v (pollin ∷ [])
      then (do
        h ← get
        tell (read_file h.rx_shutdown_event_fd 8)
        modify (λ s. record s { run_thread = false }))
      else if is_any_flag_set v
      then modify (λ s. record s { run_thread = false })
      else pure tt

  -- what follows the events of all channels, `n` of them
  pub channels_done : (ℕ → Revents) → ℕ → Option Outcome → M Hal (Option Outcome)
  channels_done v n none = pure none
  channels_done v n (some (resets bs)) = pure (some (resets bs))
  channels_done v n (some (goes_on bs)) = do shutdown_event (v n); pure (some (goes_on bs))

  -- What follows `poll`. On the first timeout a keepalive message is sent, by a thread of its own; on
  -- the second the chip is reset.
  pub polled : ℕ → Buffers → ℤ → M Hal (Option Outcome)
  polled fuel bs (negsuc _) = pure (some (resets bs))
  polled fuel bs (pos zero) = do
    h ← get
    if h.waiting_for_keepalive_response
        then pure (some (resets bs))
        else do set_waiting true; tell thread_create; pure (some (goes_on bs))
  polled fuel bs (pos (suc _)) = do
    h ← get
    v ← after os.revents
    r ← channel_events fuel v 0 (length h.channels) bs
    channels_done v (length h.channels) r

  -- one round of the loop, on the descriptors that are polled
  pub round : ℕ → List ℤ → Buffers → M Hal (Option Outcome)
  round fuel fds bs = do
    h ← get
    n ← call os (
        poll_files fds
          (if h.waiting_for_keepalive_response then keepalive_timeout else ant_poll_timeout))
    runs ← after os.keeps_running
    modify (λ s. record s { run_thread = s.run_thread && runs })
    polled fuel bs n

  -- `fnRxThread` after the loop: where nobody else is switching the radio, the thread has crashed.
  unfoldable pub clean_up : M Hal (Unit {0})
  clean_up = do
    r ← call os (trylock enabled_status_lock)
    if not (is_zero r) then pure tt else do
      modify (λ s. record s { rx_thread = 0 })
      notify radio_status_disabling
      ant_disable os
      h ← get
      notify (ant_radio_enabled_status h)
      tell (unlock enabled_status_lock)

  -- what follows a round
  pub round_done : (Buffers → M Hal (Option Buffers)) → Option Outcome → M Hal (Option Buffers)
  round_done again none = pure none
  round_done again (some (resets bs)) = do do_reset os; pure (some bs)
  round_done again (some (goes_on bs)) = again bs

  -- the loop
  pub rx_rounds : ℕ → ℕ → List ℤ → Buffers → M Hal (Option Buffers)
  rx_rounds fuel zero fds bs = pure none
  rx_rounds fuel (suc rounds) fds bs =
      let again = rx_rounds fuel rounds fds in
      do
        h ← get
        if not h.run_thread
            then (do clean_up; pure (some bs))
            else do r ← round fuel fds bs; round_done again r

  -- `fnRxThread`, with the buffers as the latest thread left them
  pub fn_rx_thread : ℕ → ℕ → Buffers → M Hal (Option Buffers)
  fn_rx_thread fuel rounds bs = do
    h ← get
    set_waiting false
    rx_rounds fuel rounds (map (λ c. c.fd) h.channels ++ (h.rx_shutdown_event_fd ∷ [])) bs
