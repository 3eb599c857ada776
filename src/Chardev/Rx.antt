-- ===== src/Chardev/Rx.antt =====
-- src/vfs/ant_rx_chardev.c: `setFlowControl` and `readChannelMsg`, which cuts what a device returns
-- into packets and hands the messages to the client.
--
-- A row of `aucRxBuffer` is a function from index to byte, so that a read past the end of the row
-- has the value that happens to lie there. Index 260 is the first past the end.
pub mod Frames
pub mod Parse
pub mod Bounds
pub mod Row
pub mod Stream
mod Tests
use linux_ant_hal.Base.{
  ℕ, zero, suc, ◌+◌, ◌-◌, Bool, true, false, not, ◌&&◌, ◌||◌, Option, none, some, List, [], ◌∷◌, ℤ,
  pos, negsuc, minus_one, is_neg, is_zero, ltb, leb, ◌==◌, if◌then◌else◌,
}
use linux_ant_hal.Os.{
  Os, M, ◌>>=◌, ◌>>◌, pure, after, call, tell, flow_control_lock, lock, unlock, cond_signal,
  read_file, rx_callback, Errno, eagain,
}
use linux_ant_hal.Chardev.State.{
  Channel, Hal, ant_hci_header_size, ant_hci_footer_size, ant_hci_size_offset, ant_hci_data_offset,
  ant_hci_max_msg_size, ant_msg_id_offset, ant_msg_data_offset, ant_mesg_flow_control,
}
use linux_ant_hal.Chardev.Power.{is_eagain}

abbrev pub Memory : Type 0
Memory = ℕ → ℕ

-- `aucRxBuffer[eChannel]` and `iRxBufferLength[eChannel]`
pub record RxBuffer : Type 0 where
  pub bytes : Memory
  pub length : ℕ

-- The `n` bytes from index `i` on.
abbrev pub slice : Memory → ℕ → ℕ → List ℕ
slice m i zero = []
slice m i (suc n) = m i ∷ slice m (i + 1) n

-- `read` puts `n` bytes at index `i`.
abbrev pub store : Memory → ℕ → ℕ → Memory → Memory
store m i n src j = if leb i j && ltb j (i + n) then src (j - i) else m j

-- `memcpy` of `n` bytes within the row, from index `i` to its start
abbrev pub move_down : Memory → ℕ → ℕ → Memory
move_down m i n j = if ltb j n then m (i + j) else m j

-- `KEEPALIVE_RESP`
abbrev pub keepalive_resp : List ℕ
keepalive_resp = 0x03 ∷ 0x40 ∷ 0x00 ∷ 0x00 ∷ 0x28 ∷ []

pub eq_bytes : List ℕ → List ℕ → Bool
eq_bytes [] [] = true
eq_bytes (x ∷ xs) (y ∷ ys) = x == y && eq_bytes xs ys
eq_bytes _ _ = false

-- `memcmp(msg, KEEPALIVE_RESP, sizeof(KEEPALIVE_RESP)) == 0` for `msg` at index `i`
pub is_keepalive_response : Memory → ℕ → Bool
is_keepalive_response m i = eq_bytes (slice m i 5) keepalive_resp

-- The call of `fnRxCallback`, if one is set.
unfoldable pub hand_over : Option ℕ → ℕ → List ℕ → M Hal (Unit {0})
hand_over none size msg = pure tt
hand_over (some f) size msg = tell (rx_callback f size msg)

module _ (os : Os) where
  -- `setFlowControl`. The byte that it sets is shared with the thread that transmits, under the
  -- lock.
  unfoldable pub set_flow_control : Channel → ℕ → M Hal (ℤ × Channel)
  set_flow_control c setting = do
    r ← call os (lock flow_control_lock)
    if not (is_zero r) then pure (minus_one, c) else do
      tell (unlock flow_control_lock)
      tell cond_signal
      pure (pos 0, record c { flow_control_resp = setting })

  -- What `readChannelMsg` does with a whole packet of `size` data bytes at index `i`.
  unfoldable pub handle_packet : Memory → ℕ → ℕ → Channel → M Hal (ℤ × Channel)
  handle_packet m i size c =
      let msg = i + ant_hci_data_offset in
      if m (i + ant_hci_data_offset + ant_msg_id_offset) == ant_mesg_flow_control
      then set_flow_control c (m (i + ant_hci_data_offset + ant_msg_data_offset))
      else if is_keepalive_response m msg
      then pure (pos 0, c)
      else do hand_over c.rx_callback size (slice m msg size); pure (pos 0, c)

  -- The loop over the packets in the first `total` bytes, from index `i` on. `none` is a loop that
  -- has not ended with the fuel.
  -- The bytes kept of a packet that has not arrived in full are moved by `memcpy`, taken to copy from
  -- the front where source and target overlap, for which C defines no result.
  unfoldable pub packet_loop :
      ℕ → ℕ → ℕ → RxBuffer → Channel → M Hal (Option (ℤ × Channel × RxBuffer))
  packet_loop zero total i b c = pure none
  packet_loop (suc fuel) total i b c =
      let size = b.bytes (i + ant_hci_size_offset) in
      let next = i + ant_hci_header_size + ant_hci_footer_size + size in
      let kept : RxBuffer = record {
        bytes = move_down b.bytes i (total - i);
        length = total - i;
      } in
      let rest_kept = packet_loop fuel total next kept c in
      let rest = packet_loop fuel total next b in
      if not (ltb i total)
      then pure (some (pos 0, c, b))
      else if ltb total (size + ant_hci_header_size + ant_hci_footer_size + i)
      then rest_kept
      else do
        (r, c') ← handle_packet b.bytes i size c
        if is_neg r then pure (some (minus_one, c', b)) else rest c'

  -- `readChannelMsg` after a read that returned `n` bytes, which are in the buffer. Every iteration
  -- takes a byte at least, so that `total + 1` rounds are enough.
  unfoldable pub accept : ℕ → RxBuffer → Channel → M Hal (Option (ℤ × Channel × RxBuffer))
  accept n b c =
      let total = n + b.length in
      if ltb total (b.bytes ant_hci_size_offset + ant_hci_header_size + ant_hci_footer_size)
      then pure (some (pos 0, c, record b { length = total }))
      else packet_loop (total + 1) total 0 (record b { length = 0 }) c

  -- The `read` that is repeated while it fails with EAGAIN; `none` is one that still does after so
  -- many rounds.
  unfoldable pub read_retry : ℕ → ℤ → ℕ → M Hal (Option ℤ)
  read_retry zero fd room = pure none
  read_retry (suc fuel) fd room =
      let again = read_retry fuel fd room in
      do
        r ← call os (read_file fd room)
        e ← after os.errno
        if is_neg r && is_eagain e then again else pure (some r)

  -- What follows the read, which has put its bytes into the row.
  unfoldable pub accept_read :
      Option ℤ → RxBuffer → Channel → M Hal (Option (ℤ × Channel × RxBuffer))
  accept_read none b c = pure none
  accept_read (some (negsuc _)) b c = pure (some (minus_one, c, b))
  accept_read (some (pos n)) b c = do
    src ← after os.received
    accept n (record b { bytes = store b.bytes b.length n src }) c

  unfoldable pub read_channel_msg : ℕ → RxBuffer → Channel → M Hal (Option (ℤ × Channel × RxBuffer))
  read_channel_msg fuel b c = do
    r ← read_retry fuel c.fd (ant_hci_max_msg_size - b.length)
    accept_read r b c
