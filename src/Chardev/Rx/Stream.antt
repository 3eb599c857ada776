-- ===== src/Chardev/Rx/Stream.antt =====
-- Many reads: however the device cuts the stream of bytes, the client gets the messages in it.
pub mod Read
pub mod Session
use linux_ant_hal.Base.{
  ℕ, zero, suc, ◌+◌, ◌-◌, ◌<◌, ◌≤◌, ◌≡◌, refl, sym, ap, ◌∙◌, ◌⊎◌, inl, inr, Bool, true, false, ◌&&◌,
  ◌||◌, not, Option, none, some, List, [], ◌∷◌, ◌++◌, arith, length, ◌==◌, get_or, All, ℤ, pos,
  minus_one, is_neg, if◌then◌else◌,
}
use mathlib.Core.Path.{subst, ap₂}
use mathlib.Core.List.{append_assoc, append-nil}
use linux_ant_hal.Os.{Os, Errno, M, Trace, Call, read_file, rx_callback, flow_control_lock, lock}
use linux_ant_hal.Chardev.State.{Channel, Hal, ant_mesg_flow_control, ant_hci_max_msg_size}
use linux_ant_hal.Chardev.Power.{is_eagain}
use linux_ant_hal.Chardev.Rx.{
  Memory, RxBuffer, slice, store, keepalive_resp, eq_bytes, set_flow_control, hand_over, accept,
  accept_read, read_retry, read_channel_msg,
}
use linux_ant_hal.Chardev.Rx.Frames.{Frames, Frames-append, Frames-unique, Frames-exist}
use linux_ant_hal.Chardev.Rx.Parse.{
  IsWellFormed, handle_message, handle_all, LoopEnds, accept_lem, handle_message_result,
  length-slice, slice_eq,
}

-- What the client's receive callback was given, in order.
unfoldable pub delivered : Trace → List (List ℕ)
delivered [] = []
delivered (rx_callback f n msg ∷ t) = delivered t ++ (msg ∷ [])
delivered (_ ∷ t) = delivered t

-- Neither a flow control message nor the answer to a keepalive message.
pub is_for_client : List ℕ → Bool
is_for_client msg = not (get_or msg 1 0 == ant_mesg_flow_control || eq_bytes msg keepalive_resp)

pub for_client : List (List ℕ) → List (List ℕ)
for_client [] = []
for_client (msg ∷ msgs) =
    let rest = for_client msgs in if is_for_client msg then msg ∷ rest else rest

pub for_client-append :
    (xs ys : List (List ℕ)) → for_client (xs ++ ys) ≡ for_client xs ++ for_client ys
unfolding for_client
for_client-append [] ys = refl
for_client-append (x ∷ xs) ys = ground (arith, for_client-append xs ys)

handle_message-delivered :
    (os : Os) (f : ℕ) (msg : List ℕ) (c : Channel) (h : Hal) (t : Trace)
    → c.rx_callback ≡ some f
    → (handle_message os msg c h t).0.0 ≡ pos 0
    → let ((_, c'), _, t') = handle_message os msg c h t in
      (c'.rx_callback ≡ some f)
      × (delivered t' ≡ (if is_for_client msg then delivered t ++ (msg ∷ []) else delivered t))
unfolding handle_message set_flow_control hand_over delivered is_for_client
handle_message-delivered os f msg c h t cb ok = ground arith

pub handle_all-delivered :
    (os : Os) (f : ℕ) (msgs : List (List ℕ)) (c : Channel) (h : Hal) (t : Trace)
    → c.rx_callback ≡ some f
    → (handle_all os msgs c h t).0.0 ≡ pos 0
    → let ((_, c'), _, t') = handle_all os msgs c h t in
      (c'.rx_callback ≡ some f) × (delivered t' ≡ delivered t ++ for_client msgs)
unfolding handle_all for_client
handle_all-delivered os f [] c h t cb ok = (cb, sym (append-nil (delivered t)))
handle_all-delivered os f (msg ∷ msgs) c h t cb ok =
    let ((_, c'), h', t') = handle_message os msg c h t in
    elim (handle_message_result os msg c h t) [
      | inl good ↦ ground (
        arith,
        handle_message-delivered os f msg c h t cb good,
        handle_all-delivered os f msgs c' h' t',
        append_assoc (delivered t) (msg ∷ []) (for_client msgs),
      )
      | inr bad ↦ absurd (ground arith)
    ]
