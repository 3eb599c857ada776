-- ===== src/Bluez/Message.antt =====
-- src/bluez_hci/ant_native_hci.c: `ant_tx_message`, which repeats a command that the chip could not
-- take.
--
-- `fuel` bounds the rounds of every loop; the result is `none` if one has not ended.
pub mod Success
pub mod Locks
pub mod Retries
mod Tests
use linux_ant_hal.Base.{
  ℕ, zero, suc, ◌+◌, ◌-◌, Bool, true, false, not, ◌&&◌, Option, none, some, List, [], ◌∷◌, ℤ, pos,
  negsuc, minus_one, is_neg, is_zero, eq_ℤ, ltb, leb, take, if◌then◌else◌,
}
use linux_ant_hal.Types.{
  AntStatus, ant_status_success, ant_status_failed, ant_status_no_value_available,
  ant_status_command_write_failed, ant_status_transport_unspecified_error,
  ant_status_failed_bt_not_initialized, radio_status_enabled, eq_radio, eq_ant,
}
use linux_ant_hal.Os.{
  Os, M, ◌>>=◌, ◌>>◌, pure, call, tell, tx_lock, lock, unlock, get_time, nano_sleep,
}
use linux_ant_hal.Bluez.Framing.{Board, Hci}
use linux_ant_hal.Bluez.State.{Radio}
use linux_ant_hal.Bluez.Socket.{
  ant_open_tx_transport, ant_close_tx_transport, wait_for_message, write_data,
  get_command_complete_result,
}
use linux_ant_hal.Bluez.Radio.{get_and_set_radio_status}

abbrev pub max_retries_write_fail : ℕ
max_retries_write_fail = 10

-- `startTime + MAX_RETRY_TIME_SECS`, or 0 where the time is not known
pub end_time : ℤ → ℤ
end_time (pos n) = pos (n + 10)
end_time (negsuc zero) = pos 0
end_time (negsuc (suc n)) = if leb n 8 then pos (8 - n) else negsuc (n - 9)

-- `x < y`
pub lt_ℤ : ℤ → ℤ → Bool
lt_ℤ (pos m) (pos n) = ltb m n
lt_ℤ (pos m) (negsuc n) = false
lt_ℤ (negsuc m) (pos n) = true
lt_ℤ (negsuc m) (negsuc n) = ltb n m

-- What the answer to a command leads to: the status, whether to send the command again, and the
-- number of failed writes so far.
abbrev pub Answer : Type 0
Answer = AntStatus × Bool × ℕ

module _ (os : Os) (hci : Hci) (board : Board) (fuel : ℕ) (tx_socket : ℤ) where
  -- the `switch` on the status of the answer
  pub answered : (AntStatus → M Radio (Option Answer)) → ℤ → ℕ → AntStatus → M Radio (Option Answer)
  answered again end k ant_status_no_value_available = again ant_status_no_value_available
  answered again end k ant_status_command_write_failed =
      pure (some (ant_status_command_write_failed, ltb (suc k) max_retries_write_fail, suc k))
  answered again end k ant_status_transport_unspecified_error = do
    tell (nano_sleep 50000000)
    now ← call os get_time
    pure
        (some (ant_status_transport_unspecified_error, not (eq_ℤ now minus_one) && lt_ℤ now end, k))
  answered again end k status = pure (some (status, false, k))

  -- what follows the read of an answer
  pub answer_read :
      (AntStatus → M Radio (Option Answer)) → ℤ → ℕ → Option AntStatus → M Radio (Option Answer)
  answer_read again end k none = pure none
  answer_read again end k (some status) = answered again end k status

  -- what follows the wait for an answer
  pub message_waited :
      (AntStatus → M Radio (Option Answer))
      → ℤ
      → ℕ
      → AntStatus
      → Option Bool
      → M Radio (Option Answer)
  message_waited again end k status none = pure none
  message_waited again end k status (some false) = pure (some (status, false, k))
  message_waited again end k status (some true) = do
    r ← get_command_complete_result os hci board fuel tx_socket
    answer_read again end k r

  -- the loop on `retryRx`
  pub rx_loop : ℕ → ℤ → ℕ → AntStatus → M Radio (Option Answer)
  rx_loop zero end k status = pure none
  rx_loop (suc rounds) end k status =
      let again = rx_loop rounds end k in
      do r ← wait_for_message os fuel tx_socket; message_waited again end k status r

  -- what follows the wait for the answers to a command: it is sent again, or this is the end
  pub answers_done :
      (AntStatus → ℕ → M Radio (Option AntStatus)) → Option Answer → M Radio (Option AntStatus)
  answers_done again none = pure none
  answers_done again (some (status, true, k)) = again status k
  answers_done again (some (status, false, k)) = pure (some status)

  -- what follows the sending of a command
  pub command_sent :
      (AntStatus → ℕ → M Radio (Option AntStatus))
      → ℤ
      → ℕ
      → AntStatus
      → Option AntStatus
      → M Radio (Option AntStatus)
  command_sent again end k status none = pure none
  command_sent again end k status (some sent) =
      if eq_ant sent ant_status_success
      then (do r ← rx_loop fuel end k status; answers_done again r)
      else pure (some ant_status_failed)

  -- the loop on `retryTx`
  pub tx_loop : ℕ → ℤ → List ℕ → AntStatus → ℕ → M Radio (Option AntStatus)
  tx_loop zero end mesg status k = pure none
  tx_loop (suc rounds) end mesg status k =
      let again = tx_loop rounds end mesg in
      do sent ← write_data os hci board fuel mesg; command_sent again end k status sent

  -- what follows the loop
  pub finish : Option AntStatus → M Radio (Option AntStatus)
  finish none = pure none
  finish (some status) = do
    ant_close_tx_transport os tx_socket
    tell (unlock tx_lock)
    pure (some status)

module _ (os : Os) (hci : Hci) (board : Board) where
  -- `ant_tx_message` once the socket is open
  pub send : ℕ → ℤ → List ℕ → M Radio (Option AntStatus)
  send fuel tx_socket mesg = do
    start ← call os get_time
    status ← tx_loop os hci board fuel tx_socket fuel (end_time start) mesg ant_status_failed 0
    finish os hci board fuel tx_socket status

  pub ant_tx_message : Bool → ℕ → ℕ → List ℕ → M Radio (Option AntStatus)
  ant_tx_message external fuel len mesg = do
    r ← call os (lock tx_lock)
    if not (is_zero r) then pure (some ant_status_failed) else do
      s ← get_and_set_radio_status os external
      if not (eq_radio s radio_status_enabled)
          then (do tell (unlock tx_lock); pure (some ant_status_failed_bt_not_initialized))
          else do
            tx_socket ← ant_open_tx_transport os hci board
            if is_neg tx_socket
                then (do tell (unlock tx_lock); pure (some ant_status_failed))
                else send fuel tx_socket (take len mesg)
