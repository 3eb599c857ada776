-- ===== src/Chardev/Thread/Locks.antt =====
-- The receive thread releases what it locks.
use linux_ant_hal.Base.{
  ℕ, zero, suc, ◌+◌, ◌-◌, ◌≡◌, true, false, Option, none, some, List, ◌∷◌, arith, ℤ, pos, negsuc,
  length,
}
use linux_ant_hal.Types.{
  radio_status_disabling, radio_status_resetting, radio_status_disabled, radio_status_reset,
}
use linux_ant_hal.Os.{Os, M, Trace, Mutex, holds, lock, trylock, read_file, enabled_status_lock}
use linux_ant_hal.Chardev.State.{Channel, Hal, channel_at}
use linux_ant_hal.Chardev.Status.{ant_radio_enabled_status}
use linux_ant_hal.Chardev.Power.{ant_disable, ant_enable}
use linux_ant_hal.Chardev.Power.Enable.{holds-ant_enable}
use linux_ant_hal.Chardev.Power.Disable.{holds-ant_disable}
use linux_ant_hal.Chardev.Radio.{notify, do_reset}
use linux_ant_hal.Chardev.Radio.Enable.{notify_lem}
use linux_ant_hal.Chardev.Rx.{
  RxBuffer, Memory, move_down, hand_over, set_flow_control, handle_packet, packet_loop, accept,
  read_retry, accept_read, read_channel_msg,
}
use linux_ant_hal.Chardev.Thread.{
  Revents, Buffers, Outcome, resets, goes_on, and_then, message_read, channel_event, channel_events,
  channels_done, shutdown_event, polled, round, round_done, rx_rounds, clean_up, fn_rx_thread,
}

-- An operation that is called with no mutex of a kind held returns with none held.
abbrev pub Releases : {A : Type 0} → Os → Mutex → M Hal A → Type 0
Releases os m op = (h : Hal) (t : Trace) → holds os m t ≡ false → holds os m (op h t).2 ≡ false

module _ (os : Os) (m : Mutex) where
  handle_packet-Releases :
      (b : Memory) (i size : ℕ) (c : Channel) → Releases os m (handle_packet os b i size c)
  unfolding handle_packet hand_over set_flow_control holds
  handle_packet-Releases b i size c h t free = ground arith

  packet_loop-Releases :
      (fuel total i : ℕ) (b : RxBuffer) (c : Channel)
      → Releases os m (packet_loop os fuel total i b c)
  unfolding packet_loop
  packet_loop-Releases zero total i b c h t free = free
  packet_loop-Releases (suc fuel) total i b c h t free =
      let size = b.bytes (i + 0) in
      let next = i + 1 + 0 + size in
      let kept : RxBuffer = record {
        bytes = move_down b.bytes i (total - i);
        length = total - i;
      } in
      let ((_, c'), h', t') = handle_packet os b.bytes i size c h t in
      ground (
        arith,
        handle_packet-Releases b.bytes i size c h t free,
        packet_loop-Releases fuel total next kept c h t free,
        packet_loop-Releases fuel total next b c' h' t',
      )

  read_retry-Releases : (fuel : ℕ) (fd : ℤ) (room : ℕ) → Releases os m (read_retry os fuel fd room)
  unfolding read_retry holds
  read_retry-Releases zero fd room h t free = free
  read_retry-Releases (suc fuel) fd room h t free =
      ground (arith, read_retry-Releases fuel fd room h (read_file fd room ∷ t))

  accept-Releases : (n : ℕ) (b : RxBuffer) (c : Channel) → Releases os m (accept os n b c)
  unfolding accept
  accept-Releases n b c h t free =
      let total = n + b.length in
      ground (arith, packet_loop-Releases (total + 1) total 0 (record b { length = 0 }) c h t free)

  accept_read-Releases :
      (r : Option ℤ) (b : RxBuffer) (c : Channel) → Releases os m (accept_read os r b c)
  unfolding accept_read
  accept_read-Releases none b c h t free = free
  accept_read-Releases (some (negsuc _)) b c h t free = free
  accept_read-Releases (some (pos n)) b c h t free = accept-Releases n _ c h t free

  pub read_channel_msg-Releases :
      (fuel : ℕ) (b : RxBuffer) (c : Channel) → Releases os m (read_channel_msg os fuel b c)
  unfolding read_channel_msg
  read_channel_msg-Releases fuel b c h t free =
      let (r, h1, t1) = read_retry os fuel c.fd (260 - b.length) h t in
      accept_read-Releases r b c h1 t1 (read_retry-Releases fuel c.fd (260 - b.length) h t free)

  do_reset-Releases : Releases os m (do_reset os)
  unfolding do_reset holds
  do_reset-Releases h t free =
      let h0 = record h { chip_resetting = true } in
      let (_, h1, t1) = notify radio_status_resetting h0 t in
      let t2 = lock enabled_status_lock ∷ t1 in
      let h2 = record h1 { run_thread = false; rx_thread = 0 } in
      let (_, h3, t3) = ant_disable os h2 t2 in
      let (_, h4, t4) = ant_enable os h3 t3 in
      let h5 = record h4 { chip_resetting = false } in
      ground (
        arith,
        notify_lem os radio_status_resetting h0 t m,
        holds-ant_disable os h2 t2 m,
        holds-ant_enable os h3 t3 m,
        notify_lem os radio_status_reset h5 t4 m,
        notify_lem os radio_status_disabled h5 t4 m,
      )

  clean_up-Releases : Releases os m (clean_up os)
  unfolding clean_up holds
  clean_up-Releases h t free =
      let t0 = trylock enabled_status_lock ∷ t in
      let h0 = record h { rx_thread = 0 } in
      let (_, h1, t1) = notify radio_status_disabling h0 t0 in
      let (_, h2, t2) = ant_disable os h1 t1 in
      ground (
        arith,
        notify_lem os radio_status_disabling h0 t0 m,
        holds-ant_disable os h1 t1 m,
        notify_lem os (ant_radio_enabled_status h2) h2 t2 m,
      )

  message_read-Releases :
      (bs : Buffers) (i : ℕ) (r : Option (ℤ × Channel × RxBuffer))
      → Releases os m (message_read bs i r)
  unfolding message_read
  message_read-Releases bs i none h t free = free
  message_read-Releases bs i (some _) h t free = free

  channel_event-Releases :
      (fuel : ℕ) (v : Revents) (bs : Buffers) (i : ℕ) → Releases os m (channel_event os fuel v bs i)
  unfolding channel_event
  channel_event-Releases fuel v bs i h t free =
      let h1 = record h { waiting_for_keepalive_response = false } in
      let (r, h2, t2) = read_channel_msg os fuel (bs i) (channel_at h1 i) h1 t in
      ground (
        arith,
        read_channel_msg-Releases fuel (bs i) (channel_at h1 i) h1 t free,
        message_read-Releases bs i r h2 t2,
      )

  and_then-Releases :
      (rest : Buffers → M Hal (Option Outcome)) (r : Option Outcome)
      → ((bs : Buffers) → Releases os m (rest bs))
      → Releases os m (and_then rest r)
  unfolding and_then
  and_then-Releases rest none k h t free = free
  and_then-Releases rest (some (resets bs)) k h t free = free
  and_then-Releases rest (some (goes_on bs)) k h t free = k bs h t free

  channel_events-Releases :
      (fuel : ℕ) (v : ℕ → Revents) (i n : ℕ) (bs : Buffers)
      → Releases os m (channel_events os fuel v i n bs)
  unfolding channel_events
  channel_events-Releases fuel v i zero bs h t free = free
  channel_events-Releases fuel v i (suc n) bs h t free =
      let (r, h1, t1) = channel_event os fuel (v i) bs i h t in
      and_then-Releases (channel_events os fuel v (i + 1) n) r
        (channel_events-Releases fuel v (i + 1) n) h1 t1
        (channel_event-Releases fuel (v i) bs i h t free)

  pub shutdown_event-Releases : (v : Revents) → Releases os m (shutdown_event os v)
  unfolding shutdown_event holds
  shutdown_event-Releases v h t free = ground arith

  channels_done-Releases :
      (v : ℕ → Revents) (n : ℕ) (r : Option Outcome) → Releases os m (channels_done os v n r)
  unfolding channels_done
  channels_done-Releases v n none h t free = free
  channels_done-Releases v n (some (resets bs)) h t free = free
  channels_done-Releases v n (some (goes_on bs)) h t free = shutdown_event-Releases (v n) h t free

  polled-Releases : (fuel : ℕ) (bs : Buffers) (r : ℤ) → Releases os m (polled os fuel bs r)
  unfolding polled holds
  polled-Releases fuel bs (negsuc _) h t free = free
  polled-Releases fuel bs (pos zero) h t free = ground arith
  polled-Releases fuel bs (pos (suc _)) h t free =
      let v = os.revents t in
      let (r, h1, t1) = channel_events os fuel v 0 (length h.channels) bs h t in
      channels_done-Releases v (length h.channels) r h1 t1
        (channel_events-Releases fuel v 0 (length h.channels) bs h t free)

  round_done-Releases :
      (again : Buffers → M Hal (Option Buffers)) (r : Option Outcome)
      → ((bs : Buffers) → Releases os m (again bs))
      → Releases os m (round_done os again r)
  unfolding round_done
  round_done-Releases again none k h t free = free
  round_done-Releases again (some (resets bs)) k h t free = do_reset-Releases h t free
  round_done-Releases again (some (goes_on bs)) k h t free = k bs h t free

  round-Releases : (fuel : ℕ) (fds : List ℤ) (bs : Buffers) → Releases os m (round os fuel fds bs)
  unfolding round holds
  round-Releases fuel fds bs h t free = polled-Releases fuel bs _ _ _ free

  rx_rounds-Releases :
      (fuel rounds : ℕ) (fds : List ℤ) (bs : Buffers)
      → Releases os m (rx_rounds os fuel rounds fds bs)
  unfolding rx_rounds
  rx_rounds-Releases fuel zero fds bs h t free = free
  rx_rounds-Releases fuel (suc rounds) fds bs h t free =
      let (r, h1, t1) = round os fuel fds bs h t in
      let go_on =
        round_done-Releases (rx_rounds os fuel rounds fds) r (rx_rounds-Releases fuel rounds fds) h1
          t1 (round-Releases fuel fds bs h t free) in
      ground (arith, clean_up-Releases h t free, go_on)

-- The receive thread holds no lock when it ends, whatever ends it and whatever it read, nor after any
-- number of rounds: started with no mutex of a kind held, it leaves none of that kind held.
pub thread_releases :
    (os : Os) (fuel rounds : ℕ) (bs : Buffers) (h : Hal) (t : Trace) (m : Mutex)
    → holds os m t ≡ false
    → holds os m (fn_rx_thread os fuel rounds bs h t).2 ≡ false
unfolding fn_rx_thread
thread_releases os fuel rounds bs h t m free = rx_rounds-Releases os m fuel rounds _ bs _ t free
