-- ===== src/Bluez/Message/Locks.antt =====
-- `ant_tx_message` over BlueZ: the lock is released on every path.
use linux_ant_hal.Base.{
  ℕ, zero, suc, ◌≡◌, ◌≢◌, refl, Bool, true, false, Option, none, some, List, [], ◌∷◌, ◌++◌, arith,
  ℤ, length, take, ◌%◌,
}
use linux_ant_hal.Types.{AntStatus, ant_status_failed, ant_status_no_value_available}
use linux_ant_hal.Os.{
  Os, M, Trace, Mutex, holds, lock, tx_lock, read_file, write_file, poll_files, get_time,
}
use linux_ant_hal.Bluez.Framing.{Board, Hci, create_command_header}
use linux_ant_hal.Bluez.State.{Radio}
use linux_ant_hal.Bluez.Socket.{
  create_hci_sock, wait_for_message, write_loop, write_data, read_answer,
  get_command_complete_result, ant_open_tx_transport, ant_close_tx_transport,
}
use linux_ant_hal.Bluez.Radio.{get_and_set_radio_status}
use linux_ant_hal.Bluez.Radio.Locks.{holds-get_and_set}
use linux_ant_hal.Bluez.Message.{
  end_time, Answer, answered, answer_read, message_waited, rx_loop, answers_done, command_sent,
  tx_loop, finish, send, ant_tx_message,
}

module _ (os : Os) (hci : Hci) (board : Board) where
  holds-result :
      (fuel : ℕ) (socket : ℤ) (h : Radio) (t : Trace) (m : Mutex)
      → holds os m (get_command_complete_result os hci board fuel socket h t).2 ≡ holds os m t
  unfolding get_command_complete_result read_answer holds
  holds-result zero socket h t m = refl
  holds-result (suc fuel) socket h t m =
      ground (arith, holds-result fuel socket h (read_file socket hci.hci_max_event_size ∷ t) m)

  holds-wait :
      (fuel : ℕ) (socket : ℤ) (h : Radio) (t : Trace) (m : Mutex)
      → holds os m (wait_for_message os fuel socket h t).2 ≡ holds os m t
  unfolding wait_for_message holds
  holds-wait zero socket h t m = refl
  holds-wait (suc fuel) socket h t m =
      ground (arith, holds-wait fuel socket h (poll_files (socket ∷ []) 2500 ∷ t) m)

  holds-write :
      (fuel : ℕ) (bytes : List ℕ) (h : Radio) (t : Trace) (m : Mutex)
      → holds os m (write_loop os fuel bytes h t).2 ≡ holds os m t
  unfolding write_loop holds
  holds-write zero bytes h t m = refl
  holds-write (suc fuel) bytes h t m =
      ground (arith, holds-write fuel bytes h (write_file h.ant_cmd_socket bytes ∷ t) m)

  holds-open :
      (h : Radio) (t : Trace) (m : Mutex)
      → holds os m (ant_open_tx_transport os hci board h t).2 ≡ holds os m t
  unfolding ant_open_tx_transport create_hci_sock holds
  holds-open h t m = ground arith

  module _ (fuel : ℕ) (socket : ℤ) where
    holds-rx_loop :
        (rounds : ℕ) (end : ℤ) (k : ℕ) (status : AntStatus) (h : Radio) (t : Trace) (m : Mutex)
        → holds os m (rx_loop os hci board fuel socket rounds end k status h t).2 ≡ holds os m t
    unfolding rx_loop message_waited answer_read answered holds
    holds-rx_loop zero end k status h t m = refl
    holds-rx_loop (suc rounds) end k status h t m =
        let (_, h1, t1) = wait_for_message os fuel socket h t in
        let (_, h2, t2) = get_command_complete_result os hci board fuel socket h1 t1 in
        ground (
          arith,
          holds-wait fuel socket h t m,
          holds-result fuel socket h1 t1 m,
          holds-rx_loop rounds end k ant_status_no_value_available h2 t2 m,
        )

    holds-answers_done :
        (again : AntStatus → ℕ → M Radio (Option AntStatus)) (answer : Option Answer) (h : Radio)
        (t : Trace) (m : Mutex)
        → ((st : AntStatus) (k : ℕ) → holds os m (again st k h t).2 ≡ holds os m t)
        → holds os m (answers_done os hci board fuel socket again answer h t).2 ≡ holds os m t
    unfolding answers_done
    holds-answers_done again none h t m later = refl
    holds-answers_done again (some (st, true, k)) h t m later = later st k
    holds-answers_done again (some (st, false, k)) h t m later = refl

    holds-tx_loop :
        (rounds : ℕ) (end : ℤ) (mesg : List ℕ) (status : AntStatus) (k : ℕ) (h : Radio) (t : Trace)
        (m : Mutex)
        → holds os m (tx_loop os hci board fuel socket rounds end mesg status k h t).2
          ≡ holds os m t
    unfolding tx_loop command_sent write_data
    holds-tx_loop zero end mesg status k h t m = refl
    holds-tx_loop (suc rounds) end mesg status k h t m =
        let bytes =
          hci.header_bytes (create_command_header hci board (length mesg % 256)) ++ mesg in
        let (_, h1, t1) = write_loop os fuel bytes h t in
        let (answer, h2, t2) = rx_loop os hci board fuel socket fuel end k status h1 t1 in
        ground (
          arith,
          holds-write fuel bytes h t m,
          holds-rx_loop fuel end k status h1 t1 m,
          holds-answers_done (tx_loop os hci board fuel socket rounds end mesg) answer h2 t2 m
              (λ st k'. holds-tx_loop rounds end mesg st k' h2 t2 m),
        )

  -- An `ant_tx_message` that returns releases the lock on every path: called with no mutex of a kind
  -- held, it returns with none of that kind held.
  pub message_releases :
      (external : Bool) (fuel len : ℕ) (mesg : List ℕ) (h : Radio) (t : Trace) (m : Mutex)
      → holds os m t ≡ false
      → (ant_tx_message os hci board external fuel len mesg h t).0 ≢ none
      → holds os m (ant_tx_message os hci board external fuel len mesg h t).2 ≡ false
  unfolding ant_tx_message send finish ant_close_tx_transport holds
  message_releases external fuel len mesg h t m free returns =
      let t0 = lock tx_lock ∷ t in
      let (_, h1, t1) = get_and_set_radio_status os external h t0 in
      let (socket, h2, t2) = ant_open_tx_transport os hci board h1 t1 in
      let end = end_time (os.ret t2 get_time) in
      ground (
        arith,
        holds-get_and_set os external h t0 m,
        holds-open h1 t1 m,
        holds-tx_loop fuel socket fuel end (take len mesg) ant_status_failed 0 h2 (get_time ∷ t2) m,
      )
