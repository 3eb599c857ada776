-- ===== src/Chardev/Tx/Message.antt =====
-- `ant_tx_message`: what it writes, where, and when it says that it has.
use linux_ant_hal.Base.{
  ◌≢◌, none, ℕ, zero, suc, ◌<◌, ◌≤◌, ◌≡◌, refl, false, not, ◌&&◌, ◌||◌, some, List, [], ◌∷◌, ◌++◌,
  arith, length, take, ℤ, pos, is_zero, get_or, set, if◌then◌else◌,
}
use linux_ant_hal.Types.{ant_status_success, radio_status_enabled, eq_radio}
use linux_ant_hal.Os.{
  Os, Trace, Mutex, flow_control_lock, lock, write_file, get_time, cond_timedwait, holds,
}
use linux_ant_hal.Chardev.State.{
  Channel, Hal, channel_at, no_channel, set_flow_resp, single_channel, data_channel,
  command_channel, ant_flow_stop,
}
use linux_ant_hal.Chardev.Status.{ant_radio_enabled_status}
use linux_ant_hal.Chardev.Tx.{
  is_data_id, tx_message_length, tx_buffer, waited, wait_flow_go, written, wait_done,
  ant_tx_message_flowcontrol_wait, ant_tx_message_flowcontrol_none, ant_tx_message,
  ant_tx_message_single,
}
use linux_ant_hal.Chardev.Tx.Frame.{tx_packet}
use linux_ant_hal.Chardev.Tx.Flow.{flowcontrol_wait_releases, after_wait, wait_step}

-- What was handed to which descriptor, in order.
unfoldable pub writes : Trace → List (ℤ × List ℕ)
writes [] = []
writes (write_file fd bytes ∷ t) = writes t ++ ((fd, bytes) ∷ [])
writes (_ ∷ t) = writes t

get_or-set_fd :
    (cs : List Channel) (i j v : ℕ)
    → (get_or
        (set cs i (record (get_or cs i no_channel) { flow_control_resp = v }))
        j
        no_channel).fd
      ≡ (get_or cs j no_channel).fd
get_or-set_fd [] i j v = refl
get_or-set_fd (c ∷ cs) zero zero v = refl
get_or-set_fd (c ∷ cs) zero (suc j) v = refl
get_or-set_fd (c ∷ cs) (suc i) zero v = refl
get_or-set_fd (c ∷ cs) (suc i) (suc j) v = get_or-set_fd cs i j v

writes-wait_flow_go :
    (os : Os) (fuel path : ℕ) (h : Hal) (t : Trace)
    → writes (wait_flow_go os fuel path h t).2 ≡ writes t
unfolding wait_flow_go waited writes
writes-wait_flow_go os zero path h t = refl
writes-wait_flow_go os (suc fuel) path h t = ground (
  arith,
  wait_step os fuel path h t,
  writes-wait_flow_go os fuel path (after_wait os path h t) (cond_timedwait ∷ t),
)

pub flowcontrol_wait_writes :
    (os : Os) (fuel tx_path flow_path len : ℕ) (buffer : List ℕ) (h : Hal) (t : Trace)
    → writes (ant_tx_message_flowcontrol_wait os fuel tx_path flow_path len buffer h t).2 ≡ (
        if is_zero (os.ret t (lock flow_control_lock))
        then writes t ++ (((channel_at h tx_path).fd, take len buffer) ∷ [])
        else writes t)
unfolding ant_tx_message_flowcontrol_wait written wait_done writes
flowcontrol_wait_writes os fuel tx_path flow_path len buffer h t =
    let h1 = set_flow_resp flow_path ant_flow_stop h in
    let t1 =
      get_time
      ∷ write_file (channel_at h1 tx_path).fd (take len buffer)
      ∷ lock flow_control_lock
      ∷ t in
    ground (
      arith,
      get_or-set_fd h.channels flow_path tx_path ant_flow_stop,
      writes-wait_flow_go os fuel flow_path h1 t1,
    )

-- Of a message of up to 254 bytes `ant_tx_message` makes one write: of the size byte and the message,
-- to the data path if the identifier is that of a data message and to the command path otherwise. It
-- makes none if the radio is not enabled, or if a data message cannot get the lock.
pub tx_message_writes :
    (os : Os) (fuel len : ℕ) (mesg : List ℕ) (h : Hal) (t : Trace)
    → len < 255
    → len ≤ length mesg
    → let is_data = is_data_id (get_or mesg 1 (os.stale t)) in
      let path = if is_data then data_channel else command_channel in
      let enabled = eq_radio (ant_radio_enabled_status h) radio_status_enabled in
      writes (ant_tx_message os fuel len mesg h t).2 ≡ (
        if enabled && (not is_data || is_zero (os.ret t (lock flow_control_lock)))
        then writes t ++ (((channel_at h path).fd, len ∷ take len mesg) ∷ [])
        else writes t)
unfolding ant_tx_message ant_tx_message_flowcontrol_none writes
tx_message_writes os fuel len mesg h t small fits = ground (
  arith,
  tx_packet len mesg small fits,
  flowcontrol_wait_writes os fuel data_channel command_channel (tx_message_length len)
      (tx_buffer len mesg) h t,
)

-- A message of 255 bytes that is no data message is reported as sent by an enabled radio whose
-- device takes the write of no bytes: nothing of it is written.
pub tx_message_wraps :
    (os : Os) (fuel : ℕ) (mesg : List ℕ) (h : Hal) (t : Trace)
    → ant_radio_enabled_status h ≡ radio_status_enabled
    → is_data_id (get_or mesg 1 (os.stale t)) ≡ false
    → os.ret t (write_file (channel_at h command_channel).fd []) ≡ pos 0
    → ant_tx_message os fuel 255 mesg h t
      ≡ (some ant_status_success, h, write_file (channel_at h command_channel).fd [] ∷ t)
unfolding ant_tx_message ant_tx_message_flowcontrol_none tx_message_length tx_buffer
tx_message_wraps os fuel mesg h t on command taken = ground arith

-- An `ant_tx_message` that returns releases the lock on every path: called with no mutex of a kind
-- held, it returns with none of that kind held.
pub tx_message_releases :
    (os : Os) (fuel len : ℕ) (mesg : List ℕ) (h : Hal) (t : Trace) (m : Mutex)
    → holds os m t ≡ false
    → (ant_tx_message os fuel len mesg h t).0 ≢ none
    → holds os m (ant_tx_message os fuel len mesg h t).2 ≡ false
unfolding ant_tx_message ant_tx_message_flowcontrol_none holds
tx_message_releases os fuel len mesg h t m free returns = ground (
  arith,
  flowcontrol_wait_releases os fuel data_channel command_channel (tx_message_length len)
      (tx_buffer len mesg) h t m free,
)

-- In a build with a single path, of a message of up to 254 bytes one write is made to that path, of the
-- size byte and the message. None is made if the radio is not enabled, or if the lock cannot be had.
pub single_tx_writes :
    (os : Os) (fuel len : ℕ) (mesg : List ℕ) (h : Hal) (t : Trace)
    → len < 255
    → len ≤ length mesg
    → let enabled = eq_radio (ant_radio_enabled_status h) radio_status_enabled in
      writes (ant_tx_message_single os fuel len mesg h t).2 ≡ (
        if enabled && is_zero (os.ret t (lock flow_control_lock))
        then writes t ++ (((channel_at h single_channel).fd, len ∷ take len mesg) ∷ [])
        else writes t)
unfolding ant_tx_message_single writes
single_tx_writes os fuel len mesg h t small fits = ground (
  arith,
  tx_packet len mesg small fits,
  flowcontrol_wait_writes os fuel single_channel single_channel (tx_message_length len)
      (tx_buffer len mesg) h t,
)
