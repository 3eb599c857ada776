-- ===== src/Chardev/Thread/Recovery.antt =====
-- The receive thread: how a chip that is silent is reset, and how the thread ends.
use linux_ant_hal.Base.{
  ℕ, zero, suc, ◌+◌, ◌<◌, ◌&&◌, ◌≡◌, refl, true, false, some, List, [], ◌∷◌, ◌++◌, map, arith, ℤ,
  pos, is_zero, length,
}
use linux_ant_hal.Types.{radio_status_disabling}
use linux_ant_hal.Os.{
  Os, Trace, Flag, pollin, pollerr, pollhup, pollnval, poll_files, read_file, thread_create, told,
  trylock, enabled_status_lock,
}
use linux_ant_hal.Chardev.State.{Hal}
use linux_ant_hal.Chardev.Status.{ant_radio_enabled_status}
use linux_ant_hal.Chardev.Power.{ant_disable}
use linux_ant_hal.Chardev.Power.Disable.{ant_disable_lem, told-ant_disable}
use linux_ant_hal.Chardev.Radio.{notify, do_reset}
use linux_ant_hal.Chardev.Radio.Enable.{notify_lem, told-notify}
use linux_ant_hal.Chardev.Thread.{
  Revents, Buffers, goes_on, are_all_flags_set, and_then, channel_event, channel_events,
  channels_done, shutdown_event, polled, round, round_done, rx_rounds, clean_up, fn_rx_thread,
}

-- The descriptors that the thread polls.
abbrev pub polled_files : Hal → List ℤ
polled_files h = map (λ c. c.fd) h.channels ++ (h.rx_shutdown_event_fd ∷ [])

-- If nothing comes from the chip for the first timeout, and no answer to the keepalive message for the
-- second, while nobody tells the thread to stop, then the thread resets the chip and ends. The first
-- timeout is 30 seconds and the second 5.
pub silence_resets :
    (os : Os) (fuel rounds : ℕ) (bs : Buffers) (h : Hal) (t : Trace)
    → let first = poll_files (polled_files h) 30000 ∷ t in
      let second = poll_files (polled_files h) 5000 ∷ thread_create ∷ first in
      h.run_thread ≡ true
      → os.keeps_running first ≡ true
      → os.keeps_running second ≡ true
      → os.ret t (poll_files (polled_files h) 30000) ≡ pos 0
      → os.ret (thread_create ∷ first) (poll_files (polled_files h) 5000) ≡ pos 0
      → let (_, h', t') =
          do_reset os
            (record h { waiting_for_keepalive_response = true; run_thread = true })
            second in
        fn_rx_thread os fuel (suc (suc rounds)) bs h t ≡ (some bs, h', t')
unfolding fn_rx_thread rx_rounds round polled round_done
silence_resets os fuel rounds bs h t run run1 run2 quiet silent = ground arith

channel_events_quiet :
    (os : Os) (fuel : ℕ) (v : ℕ → Revents) (i n : ℕ) (bs : Buffers) (h : Hal) (t : Trace)
    → ((j : ℕ) (f : Flag) → j < i + n → v j f ≡ false)
    → channel_events os fuel v i n bs h t ≡ (some (goes_on bs), h, t)
unfolding channel_events channel_event are_all_flags_set and_then
channel_events_quiet os fuel v i zero bs h t quiet = refl
channel_events_quiet os fuel v i (suc n) bs h t quiet = ground (
  arith,
  quiet i pollerr (omega arith),
  quiet i pollhup (omega arith),
  quiet i pollin (omega arith),
  quiet i pollnval (omega arith),
  channel_events_quiet os fuel v (i + 1) n bs h t (λ j f lt. quiet j f (omega arith)),
)

-- If a poll reports the shutdown event and nothing on a channel, then the thread reads the event and
-- ends after this round, through the code that cleans up.
pub shutdown_ends :
    (os : Os) (fuel rounds n : ℕ) (bs : Buffers) (h : Hal) (t : Trace)
    → let first = poll_files (polled_files h) 30000 ∷ t in
      h.run_thread ≡ true
      → os.ret t (poll_files (polled_files h) 30000) ≡ pos (suc n)
      → ((j : ℕ) (f : Flag) → j < length h.channels → os.revents first j f ≡ false)
      → os.revents first (length h.channels) pollin ≡ true
      → let (_, h', t') =
          clean_up os
            (record h { waiting_for_keepalive_response = false; run_thread = false })
            (read_file h.rx_shutdown_event_fd 8 ∷ first) in
        fn_rx_thread os fuel (suc (suc rounds)) bs h t ≡ (some bs, h', t')
unfolding fn_rx_thread rx_rounds round polled round_done channels_done shutdown_event
    are_all_flags_set
shutdown_ends os fuel rounds n bs h t run ready quiet signal =
    let first = poll_files (polled_files h) 30000 ∷ t in
    let runs = h.run_thread && os.keeps_running first in
    let h1 = record h { waiting_for_keepalive_response = false; run_thread = runs } in
    ground (
      arith,
      channel_events_quiet os fuel (os.revents first) 0 (length h.channels) bs h1 first
          (λ j f lt. quiet j f (omega arith)),
    )

-- Where a callback is registered and no reset is under way, a thread that ends while nobody else
-- switches the radio tells the client DISABLING and then the status that results. Its handle is
-- cleared, and ucRunThread with it.
pub clean_up-told :
    (os : Os) (f : ℕ) (h : Hal) (t : Trace)
    → h.state_callback ≡ some f
    → h.chip_resetting ≡ false
    → is_zero (os.ret t (trylock enabled_status_lock)) ≡ true
    → let (_, h', t') = clean_up os h t in
      (told t' ≡ ant_radio_enabled_status h' ∷ radio_status_disabling ∷ told t)
      × (h'.rx_thread ≡ 0)
      × (h'.run_thread ≡ false)
unfolding clean_up told
clean_up-told os f h t cb quiet locked =
    let m = enabled_status_lock in
    let t0 = trylock m ∷ t in
    let h0 = record h { rx_thread = 0 } in
    let (_, h1, t1) = notify radio_status_disabling h0 t0 in
    let (_, h2, t2) = ant_disable os h1 t1 in
    ground (
      arith,
      notify_lem os radio_status_disabling h0 t0 m,
      told-notify radio_status_disabling f h0 t0 cb,
      ant_disable_lem os h1 t1,
      told-ant_disable os h1 t1,
      notify_lem os (ant_radio_enabled_status h2) h2 t2 m,
      told-notify (ant_radio_enabled_status h2) f h2 t2,
    )
