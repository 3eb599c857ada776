-- ===== src/BtVendor/Thread/Locks.antt =====
-- The receive thread of src/bt-vendor_vfs/ant_rx_chardev.c releases what it locks.
use linux_ant_hal.Base.{
  ℕ, zero, suc, ◌+◌, ◌≡◌, false, Option, none, some, List, ◌∷◌, arith, ℤ, pos, negsuc,
}
use linux_ant_hal.Types.{radio_status_disabling}
use linux_ant_hal.Os.{Os, M, Trace, Mutex, holds, trylock, enabled_status_lock}
use linux_ant_hal.Os.Keeps.{Keeps, keeps_rules, Keeps-call, Keeps-modify}
use linux_ant_hal.Chardev.State.{Channel}
use linux_ant_hal.Chardev.Rx.{RxBuffer}
use linux_ant_hal.Chardev.Thread.{Revents, Buffers, Outcome, resets, goes_on}
use linux_ant_hal.Chardev.Thread.Locks.{
  read_channel_msg-Releases as hal_read-Releases, shutdown_event-Releases as hal_shutdown-Releases,
}
use linux_ant_hal.BtVendor.State.{Vendor}
use linux_ant_hal.BtVendor.Power.{ant_disable}
use linux_ant_hal.BtVendor.Radio.{notify}
use linux_ant_hal.BtVendor.Radio.Switch.{disable_keeps}
use linux_ant_hal.BtVendor.Radio.Locks.{
  IsFree, notify-IsHeld, notify_status-IsHeld, do_reset-IsFree,
}
use linux_ant_hal.BtVendor.Thread.{
  and_then, message_read, read_channel_msg, shutdown_event, channel_event, channel_events,
  channels_done, polled, round, clean_up, round_done, rx_rounds, fn_rx_thread,
}

module _ (os : Os) (m : Mutex) where
  abbrev Releases : {A : Type 0} → M Vendor A → Type 0
  Releases op = Keeps (IsFree os m) op

  read-Releases : (fuel : ℕ) (b : RxBuffer) (c : Channel) → Releases (read_channel_msg os fuel b c)
  read-Releases fuel b c = record { at = λ v t p. hal_read-Releases os m fuel b c v.hal t p }

  shutdown_event-Releases : (f : Revents) → Releases (shutdown_event os f)
  shutdown_event-Releases f = record { at = λ v t p. hal_shutdown-Releases os m f v.hal t p }

  pub clean_up-IsFree : Releases (clean_up os)
  unfolding clean_up holds
  clean_up-IsFree = record {
    at = λ v t p.
        let t0 = trylock enabled_status_lock ∷ t in
        let b = holds os m t0 in
        let v0 = record v { hal = record v.hal { rx_thread = 0 } } in
        let (_, v1, t1) = notify radio_status_disabling v0 t0 in
        let (_, v2, t2) = ant_disable os v1 t1 in
        ground (
          arith,
          (notify-IsHeld os m b radio_status_disabling).at v0 t0,
          disable_keeps os v1 t1 m,
          (notify_status-IsHeld os m b).at v2 t2,
        );
  }

  message_read-Releases :
      (bs : Buffers) (i : ℕ) (r : Option (ℤ × Channel × RxBuffer)) → Releases (message_read bs i r)
  unfolding message_read
  message_read-Releases bs i none = search keeps_rules
  message_read-Releases bs i (some _) = search (keeps_rules, Keeps-modify) depth 30

  channel_event-Releases :
      (fuel : ℕ) (f : Revents) (bs : Buffers) (i : ℕ) → Releases (channel_event os fuel f bs i)
  unfolding channel_event
  channel_event-Releases fuel f bs i =
      search (keeps_rules, read-Releases, message_read-Releases) depth 40

  and_then-Releases :
      (rest : Buffers → M Vendor (Option Outcome)) (r : Option Outcome)
      → ((bs : Buffers) → Releases (rest bs))
      → Releases (and_then rest r)
  unfolding and_then
  and_then-Releases rest none k = search keeps_rules
  and_then-Releases rest (some (resets bs)) k = search keeps_rules
  and_then-Releases rest (some (goes_on bs)) k = k bs

  channel_events-Releases :
      (fuel : ℕ) (f : ℕ → Revents) (i n : ℕ) (bs : Buffers)
      → Releases (channel_events os fuel f i n bs)
  unfolding channel_events
  channel_events-Releases fuel f i zero bs = search keeps_rules
  channel_events-Releases fuel f i (suc n) bs =
      search
        (
          keeps_rules,
          channel_event-Releases,
          and_then-Releases,
          channel_events-Releases fuel f (i + 1) n,
        )
        depth 20

  channels_done-Releases :
      (f : ℕ → Revents) (n : ℕ) (r : Option Outcome) → Releases (channels_done os f n r)
  unfolding channels_done
  channels_done-Releases f n none = search keeps_rules
  channels_done-Releases f n (some (resets bs)) = search keeps_rules
  channels_done-Releases f n (some (goes_on bs)) =
      search (keeps_rules, shutdown_event-Releases) depth 10

  polled-Releases : (fuel : ℕ) (bs : Buffers) (r : ℤ) → Releases (polled os fuel bs r)
  unfolding polled holds
  polled-Releases fuel bs (negsuc _) = search keeps_rules
  polled-Releases fuel bs (pos zero) = search keeps_rules depth 20
  polled-Releases fuel bs (pos (suc _)) =
      search (keeps_rules, channel_events-Releases, channels_done-Releases) depth 20

  round-Releases : (fuel : ℕ) (fds : List ℤ) (bs : Buffers) → Releases (round os fuel fds bs)
  unfolding round holds
  round-Releases fuel fds bs =
      search (keeps_rules, Keeps-call, Keeps-modify, polled-Releases) depth 20

  round_done-Releases :
      (again : Buffers → M Vendor (Option Buffers)) (r : Option Outcome)
      → ((bs : Buffers) → Releases (again bs))
      → Releases (round_done os again r)
  unfolding round_done
  round_done-Releases again none k = search keeps_rules
  round_done-Releases again (some (resets bs)) k =
      search (keeps_rules, do_reset-IsFree os m) depth 10
  round_done-Releases again (some (goes_on bs)) k = k bs

  rx_rounds-Releases :
      (fuel rounds : ℕ) (fds : List ℤ) (bs : Buffers) → Releases (rx_rounds os fuel rounds fds bs)
  unfolding rx_rounds
  rx_rounds-Releases fuel zero fds bs = search keeps_rules
  rx_rounds-Releases fuel (suc rounds) fds bs =
      search
        (
          keeps_rules,
          clean_up-IsFree,
          round-Releases,
          round_done-Releases,
          rx_rounds-Releases fuel rounds fds,
        )
        depth 30

-- The receive thread holds no lock when it ends, whatever ends it and whatever it read, nor after any
-- number of rounds: started with no mutex of a kind held, it leaves none of that kind held.
pub vendor_thread_releases :
    (os : Os) (fuel rounds : ℕ) (bs : Buffers) (v : Vendor) (t : Trace) (m : Mutex)
    → holds os m t ≡ false
    → holds os m (fn_rx_thread os fuel rounds bs v t).2 ≡ false
unfolding fn_rx_thread
vendor_thread_releases os fuel rounds bs v t m free =
    (rx_rounds-Releases os m fuel rounds _ bs).at _ t free
