-- ===== src/Chardev/Thread/Rows.antt =====
-- The receive thread and the bounds of `aucRxBuffer`: its reads and the rows that it keeps.
use linux_ant_hal.Base.{
  ℕ, zero, suc, ◌+◌, ◌-◌, ◌<◌, false, Option, none, some, List, arith, ℤ, pos, negsuc, is_neg, ltb,
  ltb→lt, Bool-cases, inl, inr, ◌==◌, length,
}
use linux_ant_hal.Os.{Os, M, Trace}
use linux_ant_hal.Chardev.State.{Channel, Hal, channel_at, ant_hci_max_msg_size}
use linux_ant_hal.Chardev.Rx.{
  RxBuffer, handle_packet, packet_loop, accept, read_retry, accept_read, read_channel_msg, store,
}
use linux_ant_hal.Chardev.Rx.Bounds.{IsValid, kept-IsValid, store-small}
use linux_ant_hal.Chardev.Rx.Parse.{kept, loop_end, loop_step}
use native.Mathlib.Decide.{dec_lt}
use linux_ant_hal.Chardev.Thread.Reads.{
  ReadsInRow, KeepsReads, reads_rules, shutdown_read, do_reset-ReadsInRow, clean_up-ReadsInRow,
  handle_packet-ReadsInRow, read_retry-ReadsInRow,
}
use linux_ant_hal.Chardev.Thread.{
  put_buffer, Revents, Buffers, Outcome, resets, goes_on, and_then, message_read, channel_event,
  channel_events, channels_done, shutdown_event, polled, round, round_done, rx_rounds, fn_rx_thread,
}

-- An operation that keeps the reads in the row, with a result of which `Q` holds.
abbrev Safe : {A : Type 0} → (A → Type 0) → M Hal A → Type 0
Safe Q op = (h : Hal) (t : Trace) → ReadsInRow t → ReadsInRow (op h t).2 × Q (op h t).0

-- Of what `readChannelMsg` and the parts of the thread's loop return: every row is valid.
abbrev IsRow : Option (ℤ × Channel × RxBuffer) → Type 0
IsRow none = Unit
IsRow (some (r, c, b)) = IsValid b

abbrev pub AreRows : Buffers → Type 0
AreRows bs = (i : ℕ) → IsValid (bs i)

abbrev OutcomeRows : Option Outcome → Type 0
OutcomeRows none = Unit
OutcomeRows (some (resets bs)) = AreRows bs
OutcomeRows (some (goes_on bs)) = AreRows bs

abbrev pub LastRows : Option Buffers → Type 0
LastRows none = Unit
LastRows (some bs) = AreRows bs

put_buffer-AreRows :
    (bs : Buffers) (i : ℕ) (b : RxBuffer) → AreRows bs → IsValid b → AreRows (put_buffer bs i b)
put_buffer-AreRows bs i b v w j = elim (Bool-cases (j == i)) [
  | inl here ↦ rw here w
  | inr other ↦ rw other (v j)
]

module _ (os : Os) where
  packet_loop-Safe :
      (fuel total i : ℕ) (b : RxBuffer) (c : Channel)
      → IsValid b
      → Safe IsRow (packet_loop os fuel total i b c)
  packet_loop-Safe zero total i b c v h t p = unfold packet_loop in (p, tt)
  packet_loop-Safe (suc fuel) total i b c v h t p =
      let size = b.bytes (i + 0) in
      let next = i + 1 + 0 + size in
      elim (dec_lt i total) [
        | no over ↦ rw (loop_end os total i b c h t fuel (omega arith)) (p, v)
        | yes more ↦
            rw (loop_step os total i b c h t fuel more)
              (elim (Bool-cases (ltb total (size + 1 + 0 + i))) [
                | inl part ↦ rw part (
                    packet_loop-Safe fuel total next (kept total i b) c
                      (kept-IsValid total i b v (ltb→lt _ _ part)) h t p)
                | inr whole ↦
                    let ((r, c'), h', t') = handle_packet os b.bytes i size c h t in
                    let p' = (handle_packet-ReadsInRow os b.bytes i size c).at h t p in
                    rw whole (elim (Bool-cases (is_neg r)) [
                      | inl bad ↦ rw bad (p', v)
                      | inr good ↦ rw good (packet_loop-Safe fuel total next b c' v h' t' p')
                    ])
              ])
      ]

  accept-Safe : (n : ℕ) (b : RxBuffer) (c : Channel) → IsValid b → Safe IsRow (accept os n b c)
  unfolding accept
  accept-Safe n b c v h t p = elim (Bool-cases (ltb (n + b.length) (b.bytes 0 + 1 + 0))) [
    | inl part ↦ rw part (p, record { short = ground (arith, v.small 0); small = v.small })
    | inr whole ↦ rw whole (
        packet_loop-Safe (n + b.length + 1) (n + b.length) 0 (record b { length = 0 }) c
          (record { short = omega arith; small = v.small }) h t p)
  ]

  module _ (bytes : (u : Trace) (j : ℕ) → os.received u j < 256) where
    accept_read-Safe :
        (r : Option ℤ) (b : RxBuffer) (c : Channel) → IsValid b → Safe IsRow (accept_read os r b c)
    unfolding accept_read
    accept_read-Safe none b c v h t p = (p, tt)
    accept_read-Safe (some (negsuc n)) b c v h t p = (p, v)
    accept_read-Safe (some (pos n)) b c v h t p =
        accept-Safe n (record b { bytes = store b.bytes b.length n (os.received t) }) c
          (record {
            short = v.short;
            small = store-small b.bytes (os.received t) b.length n v.small (bytes t);
          })
          h t p

    read_channel_msg-Safe :
        (fuel : ℕ) (b : RxBuffer) (c : Channel)
        → IsValid b
        → Safe IsRow (read_channel_msg os fuel b c)
    unfolding read_channel_msg
    read_channel_msg-Safe fuel b c v h t p =
        let room = ant_hci_max_msg_size - b.length in
        let (r, h', t') = read_retry os fuel c.fd room h t in
        accept_read-Safe r b c v h' t'
          ((read_retry-ReadsInRow os fuel c.fd room (omega (arith, v.short))).at h t p)

    message_read-Safe :
        (bs : Buffers) (i : ℕ) (r : Option (ℤ × Channel × RxBuffer))
        → AreRows bs
        → IsRow r
        → Safe OutcomeRows (message_read bs i r)
    unfolding message_read
    message_read-Safe bs i none v w h t p = (p, tt)
    message_read-Safe bs i (some (pos n, c, b)) v w h t p = (p, put_buffer-AreRows bs i b v w)
    message_read-Safe bs i (some (negsuc n, c, b)) v w h t p = (p, put_buffer-AreRows bs i b v w)

    channel_event-Safe :
        (fuel : ℕ) (v : Revents) (bs : Buffers) (i : ℕ)
        → AreRows bs
        → Safe OutcomeRows (channel_event os fuel v bs i)
    unfolding channel_event
    channel_event-Safe fuel v bs i w h t p =
        let h1 = record h { waiting_for_keepalive_response = false } in
        let (r, h2, t2) = read_channel_msg os fuel (bs i) (channel_at h1 i) h1 t in
        let (p', w') = read_channel_msg-Safe fuel (bs i) (channel_at h1 i) (w i) h1 t p in
        let done = message_read-Safe bs i r w w' h2 t2 p' in ground (arith, done)

    and_then-Safe :
        (rest : Buffers → M Hal (Option Outcome)) (r : Option Outcome)
        → OutcomeRows r
        → ((bs : Buffers) → AreRows bs → Safe OutcomeRows (rest bs))
        → Safe OutcomeRows (and_then rest r)
    unfolding and_then
    and_then-Safe rest none w k h t p = (p, tt)
    and_then-Safe rest (some (resets bs)) w k h t p = (p, w)
    and_then-Safe rest (some (goes_on bs)) w k h t p = k bs w h t p

    channel_events-Safe :
        (fuel : ℕ) (v : ℕ → Revents) (i n : ℕ) (bs : Buffers)
        → AreRows bs
        → Safe OutcomeRows (channel_events os fuel v i n bs)
    unfolding channel_events
    channel_events-Safe fuel v i zero bs w h t p = (p, w)
    channel_events-Safe fuel v i (suc n) bs w h t p =
        let (r, h1, t1) = channel_event os fuel (v i) bs i h t in
        let (p1, w1) = channel_event-Safe fuel (v i) bs i w h t p in
        and_then-Safe (channel_events os fuel v (i + 1) n) r w1
          (channel_events-Safe fuel v (i + 1) n) h1 t1 p1

    shutdown_event-ReadsInRow : (v : Revents) → KeepsReads (shutdown_event os v)
    unfolding shutdown_event
    shutdown_event-ReadsInRow v = search (reads_rules, shutdown_read) depth 20

    channels_done-Safe :
        (v : ℕ → Revents) (n : ℕ) (r : Option Outcome)
        → OutcomeRows r
        → Safe OutcomeRows (channels_done os v n r)
    unfolding channels_done
    channels_done-Safe v n none w h t p = (p, tt)
    channels_done-Safe v n (some (resets bs)) w h t p = (p, w)
    channels_done-Safe v n (some (goes_on bs)) w h t p =
        ((shutdown_event-ReadsInRow (v n)).at h t p, w)

    polled-Safe :
        (fuel : ℕ) (bs : Buffers) (r : ℤ) → AreRows bs → Safe OutcomeRows (polled os fuel bs r)
    unfolding polled
    polled-Safe fuel bs (negsuc _) w h t p = (p, w)
    polled-Safe fuel bs (pos zero) w h t p = ground arith
    polled-Safe fuel bs (pos (suc _)) w h t p =
        let v = os.revents t in
        let (r, h1, t1) = channel_events os fuel v 0 (length h.channels) bs h t in
        let (p1, w1) = channel_events-Safe fuel v 0 (length h.channels) bs w h t p in
        channels_done-Safe v (length h.channels) r w1 h1 t1 p1

    round-Safe :
        (fuel : ℕ) (fds : List ℤ) (bs : Buffers)
        → AreRows bs
        → Safe OutcomeRows (round os fuel fds bs)
    unfolding round
    round-Safe fuel fds bs w h t p = polled-Safe fuel bs _ w _ _ p

    round_done-Safe :
        (again : Buffers → M Hal (Option Buffers)) (r : Option Outcome)
        → OutcomeRows r
        → ((bs : Buffers) → AreRows bs → Safe LastRows (again bs))
        → Safe LastRows (round_done os again r)
    unfolding round_done
    round_done-Safe again none w k h t p = (p, tt)
    round_done-Safe again (some (resets bs)) w k h t p = ((do_reset-ReadsInRow os).at h t p, w)
    round_done-Safe again (some (goes_on bs)) w k h t p = k bs w h t p

    rx_rounds-Safe :
        (fuel rounds : ℕ) (fds : List ℤ) (bs : Buffers)
        → AreRows bs
        → Safe LastRows (rx_rounds os fuel rounds fds bs)
    unfolding rx_rounds
    rx_rounds-Safe fuel zero fds bs w h t p = (p, tt)
    rx_rounds-Safe fuel (suc rounds) fds bs w h t p =
        let (r, h1, t1) = round os fuel fds bs h t in
        let (p1, w1) = round-Safe fuel fds bs w h t p in
        let go_on =
          round_done-Safe (rx_rounds os fuel rounds fds) r w1 (rx_rounds-Safe fuel rounds fds) h1 t1
            p1 in
        ground (arith, go_on, (clean_up-ReadsInRow os).at h t p)

-- Where the device hands over bytes and the rows are valid at first: every read that the receive
-- thread makes, however long it runs and whatever ends it, asks for five bytes at least and for 260,
-- the length of a row, at most; and when the thread has ended, the rows that it leaves to the next
-- are valid.
pub thread-ReadsInRow :
    (os : Os) (fuel rounds : ℕ) (bs : Buffers) (h : Hal) (t : Trace)
    → ((u : Trace) (j : ℕ) → os.received u j < 256)
    → ((i : ℕ) → IsValid (bs i))
    → ReadsInRow t
    → ReadsInRow (fn_rx_thread os fuel rounds bs h t).2
      × LastRows (fn_rx_thread os fuel rounds bs h t).0
unfolding fn_rx_thread
thread-ReadsInRow os fuel rounds bs h t bytes w p = rx_rounds-Safe os bytes fuel rounds _ bs w _ t p
