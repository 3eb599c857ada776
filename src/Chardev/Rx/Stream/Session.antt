-- ===== src/Chardev/Rx/Stream/Session.antt =====
-- Any number of calls of `readChannelMsg` on one channel, as the receive thread makes them.
use linux_ant_hal.Base.{
  ℕ, zero, suc, ◌-◌, ◌≡◌, refl, sym, ap, ◌∙◌, some, List, [], ◌∷◌, ◌++◌, arith, All, ℤ, pos,
}
use mathlib.Core.Path.{subst}
use mathlib.Core.List.{append_assoc, append-nil}
use linux_ant_hal.Os.{Os, Trace, read_file}
use linux_ant_hal.Chardev.State.{Channel, Hal, ant_hci_max_msg_size}
use linux_ant_hal.Chardev.Rx.{RxBuffer, slice, read_retry, read_channel_msg}
use linux_ant_hal.Chardev.Rx.Frames.{Frames, done, Frames-append, Frames-unique, Frames-exist}
use linux_ant_hal.Chardev.Rx.Parse.{IsWellFormed, handle_all}
use linux_ant_hal.Chardev.Rx.Stream.{delivered, for_client, for_client-append, handle_all-delivered}
use linux_ant_hal.Chardev.Rx.Stream.Read.{read_channel_msg_lem}

-- `Session os b c h t bytes b' c' h' t'`: from the first state on, calls of `readChannelMsg` that
-- return 0 have read the bytes, and left the last state. Between two calls the thread and others
-- may do anything that leaves the row, the channel and what the client was given alone.
pub data Session (os : Os) (b : RxBuffer) (c : Channel) (h : Hal) (t : Trace)
    : List ℕ → RxBuffer → Channel → Hal → Trace → Type 0 where
  begun : Session os b c h t [] b c h t
  waited :
      {xs : List ℕ} {b' : RxBuffer} {c' : Channel} {h1 h2 : Hal} {t1 t2 : Trace}
      → Session os b c h t xs b' c' h1 t1
      → delivered t2 ≡ delivered t1
      → Session os b c h t xs b' c' h2 t2
  received :
      (fuel n : ℕ) {xs zs : List ℕ} {b1 b2 : RxBuffer} {c1 c2 : Channel} {h1 h2 : Hal}
      {t1 u t2 : Trace}
      → Session os b c h t xs b1 c1 h1 t1
      → read_retry os fuel c1.fd (ant_hci_max_msg_size - b1.length) h1 t1 ≡ (some (pos n), h1, u)
      → read_channel_msg os fuel b1 c1 h1 t1 ≡ (some (pos 0, c2, b2), h2, t2)
      → zs ≡ xs ++ slice (os.received u) 0 n
      → Session os b c h t zs b2 c2 h2 t2

All-split : (P : List ℕ → Type 0) (xs ys : List (List ℕ)) → All P (xs ++ ys) → All P xs × All P ys
All-split P [] ys h = (tt, h)
All-split P (x ∷ xs) ys h = let (p, q) = All-split P xs ys h.1 in ((h.0, p), q)

delivered-read_retry :
    (os : Os) (fuel : ℕ) (fd : ℤ) (room : ℕ) (h : Hal) (t : Trace)
    → delivered (read_retry os fuel fd room h t).2 ≡ delivered t
unfolding read_retry delivered
delivered-read_retry os zero fd room h t = refl
delivered-read_retry os (suc fuel) fd room h t =
    ground (arith, delivered-read_retry os fuel fd room h (read_file fd room ∷ t))

delivered_none : (t : Trace) → delivered t ≡ delivered t ++ for_client []
unfolding for_client
delivered_none t = sym (append-nil (delivered t))

-- One call that returns 0.
round_lem :
    (os : Os) (f fuel n : ℕ) (b1 b2 : RxBuffer) (c1 c2 : Channel) (h1 h2 : Hal) (t1 u t2 : Trace)
    {left : List ℕ} {msgs : List (List ℕ)}
    → c1.rx_callback ≡ some f
    → read_retry os fuel c1.fd (ant_hci_max_msg_size - b1.length) h1 t1 ≡ (some (pos n), h1, u)
    → read_channel_msg os fuel b1 c1 h1 t1 ≡ (some (pos 0, c2, b2), h2, t2)
    → Frames (slice b1.bytes 0 b1.length ++ slice (os.received u) 0 n) msgs left
    → All IsWellFormed msgs
    → (delivered t2 ≡ delivered t1 ++ for_client msgs)
      × (slice b2.bytes 0 b2.length ≡ left)
      × (c2.rx_callback ≡ some f)
round_lem os f fuel n b1 b2 c1 c2 h1 h2 t1 u t2 {msgs = msgs} cb r m fr w =
    let (b', out, kept) = read_channel_msg_lem os fuel n b1 c1 h1 t1 u r fr w in
    let unread : delivered u ≡ delivered t1 =
      ap (λ x. delivered x.2) (sym r)
      ∙ delivered-read_retry os fuel c1.fd (ant_hci_max_msg_size - b1.length) h1 t1 in
    let ok : (handle_all os msgs c1 h1 u).0.0 ≡ pos 0 = cc in
    let (callback, given) = handle_all-delivered os f msgs c1 h1 u cb ok in
    let same : b' ≡ b2 = cc in
    let callback' : c2.rx_callback ≡ some f = cc in (cc, ground (arith, kept, ok, same), callback')

-- However the device cuts the stream of bytes into reads: if the row was empty at first, a receive
-- callback is set and the messages in all the bytes read are well formed, then the client has been
-- given exactly those messages, in order, but for flow control messages and answers to keepalive
-- messages; and the row holds the bytes that are left over.
pub session_delivers :
    (os : Os) (f : ℕ) {b : RxBuffer} {c : Channel} {h : Hal} {t : Trace} {b' : RxBuffer}
    {c' : Channel} {h' : Hal} {t' : Trace} {bytes left : List ℕ} {msgs : List (List ℕ)}
    → b.length ≡ 0
    → c.rx_callback ≡ some f
    → Session os b c h t bytes b' c' h' t'
    → Frames bytes msgs left
    → All IsWellFormed msgs
    → (delivered t' ≡ delivered t ++ for_client msgs)
      × (slice b'.bytes 0 b'.length ≡ left)
      × (c'.rx_callback ≡ some f)
session_delivers os f {b = b} {t = t} z cb begun fr w =
    let (none_sent, none_left) = Frames-unique done fr in
    (
      delivered_none t ∙ ap (λ ms. delivered t ++ for_client ms) none_sent,
      ap (slice b.bytes 0) z ∙ none_left,
      cb,
    )
session_delivers os f z cb (waited s e) fr w =
    let (given, kept, callback) = session_delivers os f z cb s fr w in (e ∙ given, kept, callback)
session_delivers os f {t = t} {h' = h'} {t' = t'} {left = left} {msgs = msgs} z cb
      (received fuel n {xs} {b1 = b1} {b2 = b2} {c1 = c1} {c2 = c2} {h1 = h1} {t1 = t1} {u = u} s r
        m e)
      fr w =
    let (ms1, left1, fr1) = Frames-exist xs in
    let (ms2, left2, fr2) = Frames-exist (left1 ++ slice (os.received u) 0 n) in
    let whole = Frames-append (slice (os.received u) 0 n) fr1 fr2 in
    let (all_msgs, all_left) = Frames-unique whole (subst (λ zs. Frames zs msgs left) e fr) in
    let (w1, w2) = All-split IsWellFormed ms1 ms2 (subst (All IsWellFormed) (sym all_msgs) w) in
    let (given1, kept1, callback1) = session_delivers os f z cb s fr1 w1 in
    let fr2' = subst (λ l. Frames (l ++ slice (os.received u) 0 n) ms2 left2) (sym kept1) fr2 in
    let (given2, kept2, callback2) =
      round_lem os f fuel n b1 b2 c1 c2 h1 h' t1 u t' callback1 r m fr2' w2 in
    (
      given2
          ∙ ap (λ l. l ++ for_client ms2) given1
          ∙ append_assoc (delivered t) (for_client ms1) (for_client ms2)
          ∙ ap (λ l. delivered t ++ l) (sym (for_client-append ms1 ms2) ∙ ap for_client all_msgs),
      kept2 ∙ all_left,
      callback2,
    )
