-- ===== src/Bluez/Message/Retries.antt =====
-- `ant_tx_message` over BlueZ: a command that the chip refuses is sent ten times at most.
use linux_ant_hal.Base.{
  ℕ, zero, suc, ◌+◌, ◌≤◌, ◌<◌, ◌≡◌, ◌≢◌, refl, Bool, true, false, Option, none, some, List, [], ◌∷◌,
  ◌++◌, arith, ℤ, length, take, ◌%◌, is_neg,
}
use linux_ant_hal.Types.{
  AntStatus, ant_status_failed, ant_status_no_value_available,
  ant_status_transport_unspecified_error,
}
use linux_ant_hal.Os.{
  Os, M, Call, Trace, lock, tx_lock, read_file, write_file, poll_files, get_time,
}
use linux_ant_hal.Bluez.Framing.{Board, Hci, create_command_header}
use linux_ant_hal.Bluez.State.{Radio}
use linux_ant_hal.Bluez.Socket.{
  wait_for_message, write_loop, write_data, read_answer, get_command_complete_result,
  command_complete_status, ant_open_tx_transport,
}
use linux_ant_hal.Bluez.Radio.{get_and_set_radio_status}
use linux_ant_hal.Bluez.Message.{
  end_time, Answer, answered, answer_read, message_waited, rx_loop, answers_done, command_sent,
  tx_loop, finish, send, ant_tx_message,
}

-- The chip answers with a command complete packet, and not with an unspecified error.
abbrev pub IsPlain : AntStatus → Type 0
IsPlain s = (s ≢ ant_status_no_value_available) × (s ≢ ant_status_transport_unspecified_error)

module _ (os : Os) (hci : Hci) (board : Board)
    (calm : (u : Trace) (c : Call) → is_neg (os.ret u c) ≡ false)
    (plain : (u : Trace)
      → IsPlain (command_complete_status hci board (hci.as_command_complete (os.received u))))
    (fuel : ℕ) (socket : ℤ) where
  result_ends :
      (h : Radio) (t : Trace)
      → (get_command_complete_result os hci board (suc fuel) socket h t).0 ≢ none
  unfolding get_command_complete_result read_answer
  result_ends h t = ground (arith, calm t (read_file socket hci.hci_max_event_size))

  result_plain :
      (h : Radio) (t : Trace)
      → let r = (get_command_complete_result os hci board (suc fuel) socket h t).0 in
        (r ≢ some ant_status_no_value_available) × (r ≢ some ant_status_transport_unspecified_error)
  unfolding get_command_complete_result read_answer
  result_plain h t =
      let c = read_file socket hci.hci_max_event_size in ground (arith, calm t c, plain (c ∷ t))

  wait_ends : (h : Radio) (t : Trace) → (wait_for_message os (suc fuel) socket h t).0 ≢ none
  unfolding wait_for_message
  wait_ends h t = ground (arith, calm t (poll_files (socket ∷ []) 2500))

  write_ends :
      (bytes : List ℕ) (h : Radio) (t : Trace) → (write_loop os (suc fuel) bytes h t).0 ≢ none
  unfolding write_loop
  write_ends bytes h t = ground (arith, calm t (write_file h.ant_cmd_socket bytes))

  rx_loop_ends :
      (end : ℤ) (k : ℕ) (status : AntStatus) (h : Radio) (t : Trace)
      → (rx_loop os hci board (suc fuel) socket (suc fuel) end k status h t).0 ≢ none
  unfolding rx_loop message_waited answer_read answered
  rx_loop_ends end k status h t =
      let (_, h1, t1) = wait_for_message os (suc fuel) socket h t in
      ground (arith, wait_ends h t, result_ends h1 t1, result_plain h1 t1)

  -- The chip's refusals are counted, and the command is sent again up to the tenth.
  rx_loop_counts :
      (end : ℤ) (k k' : ℕ) (status st : AntStatus) (h : Radio) (t : Trace)
      → (rx_loop os hci board (suc fuel) socket (suc fuel) end k status h t).0 ≡ some (st, true, k')
      → (k' ≡ suc k) × (k' < 10)
  unfolding rx_loop message_waited answer_read answered
  rx_loop_counts end k k' status st h t e =
      let (_, h1, t1) = wait_for_message os (suc fuel) socket h t in
      ground (arith, wait_ends h t, result_ends h1 t1, result_plain h1 t1)

  answers_done_ends :
      (again : AntStatus → ℕ → M Radio (Option AntStatus)) (answer : Option Answer) (h : Radio)
      (t : Trace)
      → answer ≢ none
      → ((st : AntStatus) (k : ℕ) → answer ≡ some (st, true, k) → (again st k h t).0 ≢ none)
      → (answers_done os hci board (suc fuel) socket again answer h t).0 ≢ none
  unfolding answers_done
  answers_done_ends again none h t some_answer later = absurd (some_answer refl)
  answers_done_ends again (some (st, true, k)) h t some_answer later = later st k refl
  answers_done_ends again (some (st, false, k)) h t some_answer later = ground arith

  tx_loop_ends :
      (rounds : ℕ) (end : ℤ) (mesg : List ℕ) (status : AntStatus) (k : ℕ) (h : Radio) (t : Trace)
      → k < 10
      → 10 ≤ rounds + k
      → (tx_loop os hci board (suc fuel) socket rounds end mesg status k h t).0 ≢ none
  unfolding tx_loop command_sent write_data
  tx_loop_ends zero end mesg status k h t few enough = absurd (omega arith)
  tx_loop_ends (suc rounds) end mesg status k h t few enough =
      let bytes = hci.header_bytes (create_command_header hci board (length mesg % 256)) ++ mesg in
      let (_, h1, t1) = write_loop os (suc fuel) bytes h t in
      let (answer, h2, t2) = rx_loop os hci board (suc fuel) socket (suc fuel) end k status h1 t1 in
      let go_on : (st : AntStatus) (k' : ℕ)
          → answer ≡ some (st, true, k')
          → (tx_loop os hci board (suc fuel) socket rounds end mesg st k' h2 t2).0 ≢ none =
        λ st k' e.
          let (next, bound) = rx_loop_counts end k k' status st h1 t1 e in
          tx_loop_ends rounds end mesg st k' h2 t2 bound (omega arith) in
      ground (
        arith,
        write_ends bytes h t,
        rx_loop_ends end k status h1 t1,
        answers_done_ends (tx_loop os hci board (suc fuel) socket rounds end mesg) answer h2 t2
            (rx_loop_ends end k status h1 t1) go_on,
      )

-- If no call returns a negative number, and every packet read is a command complete packet for the
-- command's opcode with a response other than the unspecified error, then `ant_tx_message` ends with
-- ten rounds: a command that the chip refuses again and again is sent ten times at most.
pub tx_message_ends :
    (os : Os) (hci : Hci) (board : Board) (external : Bool) (fuel len : ℕ) (mesg : List ℕ)
    (h : Radio) (t : Trace)
    → ((u : Trace) (c : Call) → is_neg (os.ret u c) ≡ false)
    → ((u : Trace)
        → IsPlain (command_complete_status hci board (hci.as_command_complete (os.received u))))
    → 10 ≤ fuel
    → (ant_tx_message os hci board external fuel len mesg h t).0 ≢ none
unfolding ant_tx_message send finish
tx_message_ends os hci board external zero len mesg h t calm plain enough = absurd (omega arith)
tx_message_ends os hci board external (suc fuel) len mesg h t calm plain enough =
    let (s, h1, t1) = get_and_set_radio_status os external h (lock tx_lock ∷ t) in
    let (socket, h2, t2) = ant_open_tx_transport os hci board h1 t1 in
    let end = end_time (os.ret t2 get_time) in
    ground (
      arith,
      tx_loop_ends os hci board calm plain fuel socket (suc fuel) end (take len mesg)
          ant_status_failed 0 h2 (get_time ∷ t2) (omega arith) (omega arith),
    )
