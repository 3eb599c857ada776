-- ===== src/Bluez/Message/Success.antt =====
-- `ant_tx_message` over BlueZ: success means that the chip has said so.
use linux_ant_hal.Base.{
  ℕ, zero, suc, ◌≡◌, ◌≢◌, ap, Bool, true, false, Option, none, some, List, ◌∷◌, arith, ℤ, pos,
  negsuc, ◌∙◌, take,
}
use linux_ant_hal.Types.{
  AntStatus, ant_status_success, ant_status_failed, ant_status_no_value_available,
}
use linux_ant_hal.Os.{Os, M, Trace, lock, unlock, tx_lock, read_file, get_time}
use linux_ant_hal.Bluez.Framing.{Board, Hci}
use linux_ant_hal.Bluez.State.{Radio}
use linux_ant_hal.Bluez.Socket.{
  wait_for_message, read_answer, command_complete_status, get_command_complete_result, write_data,
  ant_open_tx_transport, ant_close_tx_transport,
}
use linux_ant_hal.Bluez.Radio.{get_and_set_radio_status}
use linux_ant_hal.Bluez.Message.{
  end_time, Answer, answered, answer_read, message_waited, rx_loop, answers_done, command_sent,
  tx_loop, finish, send, ant_tx_message,
}

module _ (os : Os) (hci : Hci) (board : Board) where
  -- The latest call was a read on the socket that returned the size of a command complete packet, and
  -- what it brought is one for the command's opcode that says success.
  pub record IsConfirmed (socket : ℤ) (u : Trace) : Type 0 where
    pub before : Trace
    pub is_read : u ≡ read_file socket hci.hci_max_event_size ∷ before
    pub is_whole :
        os.ret before (read_file socket hci.hci_max_event_size) ≡ pos hci.command_complete_size
    pub says_success :
        command_complete_status hci board (hci.as_command_complete (os.received u))
        ≡ ant_status_success

  read_answer_lem :
      (len : ℤ) (h : Radio) (t : Trace)
      → (read_answer os hci board len h t).0 ≡ some ant_status_success
      → ((read_answer os hci board len h t).2 ≡ t)
        × (len ≡ pos hci.command_complete_size)
        × (command_complete_status hci board (hci.as_command_complete (os.received t))
            ≡ ant_status_success)
  unfolding read_answer
  read_answer_lem (negsuc n) h t done = cc
  read_answer_lem (pos n) h t done = ground arith

  read_answer-IsConfirmed :
      (socket : ℤ) (h : Radio) (t : Trace)
      → let c = read_file socket hci.hci_max_event_size in
        (read_answer os hci board (os.ret t c) h (c ∷ t)).0 ≡ some ant_status_success
        → IsConfirmed socket (read_answer os hci board (os.ret t c) h (c ∷ t)).2
  read_answer-IsConfirmed socket h t done =
      let c = read_file socket hci.hci_max_event_size in
      let (same, whole, success) = read_answer_lem (os.ret t c) h (c ∷ t) done in
      record {
        before = t;
        is_read = same;
        is_whole = whole;
        says_success =
            ap (λ u. command_complete_status hci board (hci.as_command_complete (os.received u)))
              same
            ∙ success;
      }

  result-IsConfirmed :
      (fuel : ℕ) (socket : ℤ) (h : Radio) (t : Trace)
      → (get_command_complete_result os hci board fuel socket h t).0 ≡ some ant_status_success
      → IsConfirmed socket (get_command_complete_result os hci board fuel socket h t).2
  unfolding get_command_complete_result
  result-IsConfirmed zero socket h t done = cc
  result-IsConfirmed (suc fuel) socket h t done =
      let t1 = read_file socket hci.hci_max_event_size ∷ t in
      ground (arith, result-IsConfirmed fuel socket h t1, read_answer-IsConfirmed socket h t)

  module _ (fuel : ℕ) (socket : ℤ) where
    rx_loop-IsConfirmed :
        (rounds : ℕ) (end : ℤ) (k : ℕ) (status : AntStatus) (retry : Bool) (k' : ℕ) (h : Radio)
        (t : Trace)
        → status ≢ ant_status_success
        → (rx_loop os hci board fuel socket rounds end k status h t).0
          ≡ some (ant_status_success, retry, k')
        → (retry ≡ false)
          × IsConfirmed socket (rx_loop os hci board fuel socket rounds end k status h t).2
    unfolding rx_loop message_waited answer_read answered
    rx_loop-IsConfirmed zero end k status retry k' h t bad done = cc
    rx_loop-IsConfirmed (suc rounds) end k status retry k' h t bad done =
        let (_, h1, t1) = wait_for_message os fuel socket h t in
        let (_, h2, t2) = get_command_complete_result os hci board fuel socket h1 t1 in
        ground (
          arith,
          result-IsConfirmed fuel socket h1 t1,
          rx_loop-IsConfirmed rounds end k ant_status_no_value_available retry k' h2 t2,
        )

    answers-IsConfirmed :
        (again : AntStatus → ℕ → M Radio (Option AntStatus)) (answer : Option Answer) (h : Radio)
        (t : Trace)
        → ((st : AntStatus) (k : ℕ)
            → st ≢ ant_status_success
            → (again st k h t).0 ≡ some ant_status_success
            → IsConfirmed socket (again st k h t).2)
        → ((retry : Bool) (k : ℕ)
            → answer ≡ some (ant_status_success, retry, k)
            → (retry ≡ false) × IsConfirmed socket t)
        → (answers_done os hci board fuel socket again answer h t).0 ≡ some ant_status_success
        → IsConfirmed socket (answers_done os hci board fuel socket again answer h t).2
    unfolding answers_done
    answers-IsConfirmed again none h t later now done = cc
    answers-IsConfirmed again (some (st, true, k)) h t later now done =
        later st k (λ e. cc (now true k (ap (λ s. some (s, true, k)) e)).0) done
    answers-IsConfirmed again (some (st, false, k)) h t later now done =
        (now false k (ap (λ s. elim s [ none ↦ none | some x ↦ some (x, false, k) ]) done)).1

    tx_loop-IsConfirmed :
        (rounds : ℕ) (end : ℤ) (mesg : List ℕ) (status : AntStatus) (k : ℕ) (h : Radio) (t : Trace)
        → status ≢ ant_status_success
        → (tx_loop os hci board fuel socket rounds end mesg status k h t).0
          ≡ some ant_status_success
        → IsConfirmed socket (tx_loop os hci board fuel socket rounds end mesg status k h t).2
    unfolding tx_loop command_sent
    tx_loop-IsConfirmed zero end mesg status k h t bad done = cc
    tx_loop-IsConfirmed (suc rounds) end mesg status k h t bad done =
        let (sent, h1, t1) = write_data os hci board fuel mesg h t in
        let (answer, h2, t2) = rx_loop os hci board fuel socket fuel end k status h1 t1 in
        ground (
          arith,
          answers-IsConfirmed (tx_loop os hci board fuel socket rounds end mesg) answer h2 t2
              (λ st k' b d. tx_loop-IsConfirmed rounds end mesg st k' h2 t2 b d)
              (λ retry k' e. rx_loop-IsConfirmed fuel end k status retry k' h1 t1 bad e),
        )

  -- If `ant_tx_message` returns success, then the chip has confirmed the command: before the socket is
  -- closed and the lock released, the latest call was a read on the socket that was opened, it returned the size of a
  -- command complete packet, and what it brought is one for the command's opcode with a response of 0.
  pub tx_message-IsConfirmed :
      (external : Bool) (fuel len : ℕ) (mesg : List ℕ) (h : Radio) (t : Trace)
      → (ant_tx_message os hci board external fuel len mesg h t).0 ≡ some ant_status_success
      → let (_, h1, t1) = get_and_set_radio_status os external h (lock tx_lock ∷ t) in
        let (socket, _, _) = ant_open_tx_transport os hci board h1 t1 in
        (u : Trace) × IsConfirmed socket u
        × ((ant_tx_message os hci board external fuel len mesg h t).2
            ≡ unlock tx_lock ∷ (ant_close_tx_transport os socket h u).2)
  unfolding ant_tx_message send finish ant_close_tx_transport
  tx_message-IsConfirmed external fuel len mesg h t done =
      let (s, h1, t1) = get_and_set_radio_status os external h (lock tx_lock ∷ t) in
      let (socket, h2, t2) = ant_open_tx_transport os hci board h1 t1 in
      let end = end_time (os.ret t2 get_time) in
      let (_, _, u) =
        tx_loop os hci board fuel socket fuel end (take len mesg) ant_status_failed 0 h2
          (get_time ∷ t2) in
      let confirmed =
        tx_loop-IsConfirmed fuel socket fuel end (take len mesg) ant_status_failed 0 h2
          (get_time ∷ t2) cc in
      (u, ground (arith, confirmed), ground (arith, confirmed))
