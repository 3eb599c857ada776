-- ===== src/Bluez/Receive.antt =====
-- src/bluez_hci/ant_rx.c: `ANTHCIRxThread`, which receives the events of the chip.
pub mod Walk
pub mod Locks
pub mod Delivery
mod Tests
use linux_ant_hal.Base.{
  ℕ, zero, suc, Bool, true, false, not, ◌&&◌, Option, none, some, [], ◌∷◌, ℤ, pos, negsuc, is_neg,
  is_zero, take, ◌==◌, if◌then◌else◌,
}
use linux_ant_hal.Types.{
  radio_status_enabled, radio_status_disabling, radio_status_disabled, eq_radio,
}
use linux_ant_hal.Os.{
  Os, M, ◌>>=◌, ◌>>◌, pure, get, modify, after, call, tell, enable_lock, trylock, unlock,
  set_filter, poll_files, read_file, close_file, rx_callback, power_disable,
}
use linux_ant_hal.Bluez.Framing.{
  Board, Hci, EventPacket, ant_event_vendor_code, hci_event_vendor_hdr_size, bytes_from,
  validate_hci_event_packet,
}
use linux_ant_hal.Bluez.State.{Radio, asks_again}
use linux_ant_hal.Bluez.Socket.{create_hci_sock, type_mask_event_packet}
use linux_ant_hal.Bluez.Radio.{get_and_set_radio_status, notify, set_status}

abbrev pub event_mask_1_event_vendor : ℕ
event_mask_1_event_vendor = 0x80000000

-- The call of `pfRxCallback`, if one is set, with the payload of an event that is valid.
pub deliver : Board → EventPacket → ℤ → M Radio (Unit {0})
deliver board packet (negsuc _) = pure tt
deliver board packet (pos n) = do
  h ← get
  let told : M Radio (Unit {0}) = elim h.rx_callback [
    | none ↦ pure tt
    | some f ↦
        tell (rx_callback f n (take n (bytes_from (hci_event_vendor_hdr_size board) packet.vendor)))
  ]
  told

module _ (os : Os) (hci : Hci) (board : Board) where
  -- A call repeated while it fails and asks to be repeated; `none` after so many rounds.
  pub poll_socket : ℕ → ℤ → M Radio (Option ℤ)
  poll_socket zero socket = pure none
  poll_socket (suc fuel) socket =
      let again = poll_socket fuel socket in
      do
        n ← call os (poll_files (socket ∷ []) 2500)
        e ← after os.errno
        if is_neg n && asks_again e then again else pure (some n)

  pub read_socket : ℕ → ℤ → M Radio (Option ℤ)
  read_socket zero socket = pure none
  read_socket (suc fuel) socket =
      let again = read_socket fuel socket in
      do
        n ← call os (read_file socket hci.hci_max_event_size)
        e ← after os.errno
        if is_neg n && asks_again e then again else pure (some n)

  -- What follows a read. The result says whether the thread goes on; `none` is a loop that has not
  -- ended.
  pub event_read : Option ℤ → M Radio (Option Bool)
  event_read none = pure none
  event_read (some (negsuc _)) = pure (some false)
  event_read (some (pos len)) = do
    buf ← after os.received
    deliver board (hci.as_event_packet buf)
        (validate_hci_event_packet hci board (hci.as_event_packet buf) len)
    pure (some true)

  -- what follows a poll; 0 is a timeout
  pub polled : ℕ → ℤ → Option ℤ → M Radio (Option Bool)
  polled fuel socket none = pure none
  polled fuel socket (some (negsuc _)) = pure (some false)
  polled fuel socket (some (pos n)) =
      if n == 0 then pure (some true) else do r ← read_socket fuel socket; event_read r

  -- what follows an iteration
  pub next : M Radio (Option (Unit {0})) → Option Bool → M Radio (Option (Unit {0}))
  next again none = pure none
  next again (some false) = pure (some tt)
  next again (some true) = again

  -- the loop of the thread
  pub rx_rounds : Bool → ℕ → ℕ → ℤ → M Radio (Option (Unit {0}))
  rx_rounds external fuel zero socket = pure none
  rx_rounds external fuel (suc rounds) socket =
      let again = rx_rounds external fuel rounds socket in
      do
        s ← get_and_set_radio_status os external
        if not (eq_radio s radio_status_enabled)
            then pure (some tt)
            else do n ← poll_socket fuel socket; r ← polled fuel socket n; next again r

  -- the label `close` with the lock
  pub crashed : Bool → M Radio (Unit {0})
  crashed true = do
    notify radio_status_disabling
    tell power_disable
    get_and_set_radio_status os true
    pure tt
  crashed false = set_status radio_status_disabled

  -- the label `close`
  pub close_rx : Bool → ℤ → M Radio (Unit {0})
  close_rx external socket = do
    r ← call os (trylock enable_lock)
    if is_zero r
        then (do crashed external; modify (λ s. record s { thread = 0 }); tell (unlock enable_lock))
        else pure tt
    tell (close_file socket)

  pub rx_loop_done : Bool → ℤ → Option (Unit {0}) → M Radio (Option (Unit {0}))
  rx_loop_done external socket none = pure none
  rx_loop_done external socket (some _) = do close_rx external socket; pure (some tt)

  -- `ANTHCIRxThread`; `none` is a thread that runs on.
  pub ant_hci_rx_thread : Bool → ℕ → ℕ → M Radio (Option (Unit {0}))
  ant_hci_rx_thread external fuel rounds = do
    socket ← create_hci_sock os
    if is_neg socket then pure (some tt) else do
      r ← call os (
          set_filter socket type_mask_event_packet 0 event_mask_1_event_vendor
            (hci.htobs (ant_event_vendor_code board)))
      if is_neg r
          then (do close_rx external socket; pure (some tt))
          else do done ← rx_rounds external fuel rounds socket; rx_loop_done external socket done
