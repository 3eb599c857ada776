-- ===== src/Bluez/Socket.antt =====
-- src/bluez_hci/ant_tx.c and src/bluez_hci/inc/ant_hciutils.h: the socket on which a command is sent
-- and its answer awaited.
--
-- A loop that only the system ends has a number of rounds; the result is `none` if it has not ended.
use linux_ant_hal.Base.{
  ℕ, zero, suc, ◌%◌, Bool, true, false, not, ◌&&◌, Option, none, some, List, [], ◌∷◌, ◌++◌, ℤ, pos,
  negsuc, minus_one, is_neg, ltb, ◌==◌, length, if◌then◌else◌,
}
use linux_ant_hal.Types.{
  AntStatus, ant_status_success, ant_status_failed, ant_status_internal_error,
  ant_status_no_value_available, ant_status_command_write_failed,
  ant_status_transport_unspecified_error,
}
use linux_ant_hal.Os.{
  Os, M, ◌>>=◌, ◌>>◌, pure, get, modify, after, call, tell, make_socket, bind_socket, set_filter,
  close_file, poll_files, read_file, write_file,
}
use linux_ant_hal.Bluez.Bytes.{le_to_host16}
use linux_ant_hal.Bluez.Framing.{
  Board, Hci, CommandComplete, ant_command_opcode, create_command_header,
}
use linux_ant_hal.Bluez.State.{Radio, asks_again}

abbrev pub type_mask_event_packet : ℕ
type_mask_event_packet = 0x10

abbrev pub event_mask_0_command_complete : ℕ
event_mask_0_command_complete = 0x4000

-- What `writev` says of a command: `none` is a write to be repeated.
abbrev write_result : ℕ → ℤ → Bool → Option AntStatus
write_result total (negsuc _) true = none
write_result total (negsuc _) false = some ant_status_failed
write_result total (pos n) again =
    some (if ltb n total then ant_status_failed else ant_status_success)

-- What `poll` says: `none` is a poll to be repeated.
abbrev poll_result : ℤ → Bool → Option Bool
poll_result (negsuc _) true = none
poll_result (negsuc _) false = some false
poll_result (pos n) again = some (not (n == 0))

-- Goes on with a result, or does it again.
abbrev pub again_if_none : {A : Type 0} → M Radio (Option A) → Option A → M Radio (Option A)
again_if_none again none = again
again_if_none again (some a) = pure (some a)

-- `get_command_complete_result` on a command complete packet
unfoldable pub command_complete_status : Hci → Board → CommandComplete → AntStatus
command_complete_status hci board packet =
    if not (packet.packet_type == hci.hci_event_pkt)
    then ant_status_no_value_available
    else if not (packet.evt == hci.evt_cmd_complete)
    then ant_status_no_value_available
    else if not (le_to_host16 packet.opcode == ant_command_opcode board)
    then ant_status_no_value_available
    else if packet.response == 0
    then ant_status_success
    else if packet.response == hci.hci_unspecified_error
    then ant_status_transport_unspecified_error
    else ant_status_command_write_failed

module _ (os : Os) where
  unfoldable pub create_hci_sock : M Radio ℤ
  create_hci_sock = do
    sk ← call os make_socket
    if is_neg sk then pure sk else do
      r ← call os (bind_socket sk)
      if is_neg r then (do tell (close_file sk); pure minus_one) else pure sk

  unfoldable pub ant_open_tx_transport : Hci → Board → M Radio ℤ
  ant_open_tx_transport hci board = do
    socket ← create_hci_sock
    if is_neg socket then pure socket else do
      modify (λ s. record s { ant_cmd_socket = socket })
      r ← call os (
          set_filter socket type_mask_event_packet event_mask_0_command_complete 0
            (hci.htobs (ant_command_opcode board)))
      if is_neg r then (do tell (close_file socket); pure minus_one) else pure socket

  -- `0 < socket`
  unfoldable pub ant_close_tx_transport : ℤ → M Radio (Unit {0})
  ant_close_tx_transport (negsuc _) = pure tt
  ant_close_tx_transport (pos n) = if n == 0 then pure tt else tell (close_file (pos n))

  unfoldable pub wait_for_message : ℕ → ℤ → M Radio (Option Bool)
  wait_for_message zero socket = pure none
  wait_for_message (suc fuel) socket =
      let again = wait_for_message fuel socket in
      do
        n ← call os (poll_files (socket ∷ []) 2500)
        e ← after os.errno
        again_if_none again (poll_result n (asks_again e))

  -- the loop of `write_data`
  unfoldable pub write_loop : ℕ → List ℕ → M Radio (Option AntStatus)
  write_loop zero bytes = pure none
  write_loop (suc fuel) bytes =
      let again = write_loop fuel bytes in
      do
        h ← get
        if is_neg h.ant_cmd_socket then pure (some ant_status_internal_error) else do
          n ← call os (write_file h.ant_cmd_socket bytes)
          e ← after os.errno
          again_if_none again (write_result (length bytes) n (asks_again e))

  -- `writev` gathers the header and the message.
  unfoldable pub write_data : Hci → Board → ℕ → List ℕ → M Radio (Option AntStatus)
  write_data hci board fuel ant_message =
      write_loop fuel (
        hci.header_bytes (create_command_header hci board (length ant_message % 256))
        ++ ant_message)

  -- what follows a read of `get_command_complete_result`
  unfoldable pub read_answer : Hci → Board → ℤ → M Radio (Option AntStatus)
  read_answer hci board (negsuc _) = pure (some ant_status_failed)
  read_answer hci board (pos len) = do
    buf ← after os.received
    pure (
        some (
          if not (len == hci.command_complete_size)
          then ant_status_failed
          else command_complete_status hci board (hci.as_command_complete buf)))

  unfoldable pub get_command_complete_result : Hci → Board → ℕ → ℤ → M Radio (Option AntStatus)
  get_command_complete_result hci board zero socket = pure none
  get_command_complete_result hci board (suc fuel) socket =
      let again = get_command_complete_result hci board fuel socket in
      do
        len ← call os (read_file socket hci.hci_max_event_size)
        e ← after os.errno
        if is_neg len && asks_again e then again else read_answer hci board len
