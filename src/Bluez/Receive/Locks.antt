-- ===== src/Bluez/Receive/Locks.antt =====
-- The receive thread of src/bluez_hci/ant_rx.c: the lock, and its socket.
use linux_ant_hal.Base.{
  ℕ, zero, suc, ◌≡◌, ◌⊎◌, refl, ◌≢◌, Bool, true, false, Option, none, some, [], ◌∷◌, arith, ℤ, pos,
  negsuc, is_neg, eq_ℤ, eq_ℤ_iff,
}
use linux_ant_hal.Types.{RadioStatus}
use linux_ant_hal.Os.{
  Os, Trace, Mutex, holds, enable_lock, trylock, poll_files, read_file, close_file, set_filter,
}
use linux_ant_hal.Os.Keeps.{Keeps, keeps_rules, Keeps-call, Keeps-tell, Keeps-modify}
use linux_ant_hal.Bluez.Framing.{Board, Hci, EventPacket, ant_event_vendor_code}
use linux_ant_hal.Bluez.State.{Radio}
use linux_ant_hal.Bluez.Socket.{create_hci_sock, type_mask_event_packet}
use linux_ant_hal.Bluez.Radio.{notify, get_and_set_radio_status}
use linux_ant_hal.Bluez.Radio.Locks.{holds-get_and_set}
use linux_ant_hal.Bluez.Receive.{
  deliver, event_mask_1_event_vendor, poll_socket, read_socket, event_read, polled, rx_rounds,
  crashed, close_rx, rx_loop_done, ant_hci_rx_thread,
}
use linux_ant_hal.Bluez.Receive.Walk.{rx_thread-Keeps}

module _ (os : Os) (hci : Hci) (board : Board) (m : Mutex) where
  module _ (b : Bool) where
    abbrev IsHeld : Radio → Trace → Type 0
    IsHeld h t = holds os m t ≡ b

    status-IsHeld : (external : Bool) → Keeps IsHeld (get_and_set_radio_status os external)
    status-IsHeld external = record {
      at = λ h t p. ground (arith, holds-get_and_set os external h t m);
    }

    notify-IsHeld : (s : RadioStatus) → Keeps IsHeld (notify s)
    unfolding notify holds
    notify-IsHeld s = record { at = λ h t p. ground arith }

    poll_socket-IsHeld :
        (fuel : ℕ) (socket : ℤ) → Keeps IsHeld (poll_socket os hci board fuel socket)
    unfolding poll_socket holds
    poll_socket-IsHeld zero socket = search keeps_rules
    poll_socket-IsHeld (suc fuel) socket = record {
      at = λ h t p.
          ground (arith, (poll_socket-IsHeld fuel socket).at h (poll_files (socket ∷ []) 2500 ∷ t));
    }

    read_socket-IsHeld :
        (fuel : ℕ) (socket : ℤ) → Keeps IsHeld (read_socket os hci board fuel socket)
    unfolding read_socket holds
    read_socket-IsHeld zero socket = search keeps_rules
    read_socket-IsHeld (suc fuel) socket = record {
      at = λ h t p.
          let t1 = read_file socket hci.hci_max_event_size ∷ t in
          ground (arith, (read_socket-IsHeld fuel socket).at h t1);
    }

    deliver-IsHeld : (packet : EventPacket) (r : ℤ) → Keeps IsHeld (deliver board packet r)
    unfolding deliver holds
    deliver-IsHeld packet (negsuc _) = search keeps_rules
    deliver-IsHeld packet (pos n) = record { at = λ h t p. ground arith }

    event_read-IsHeld : (r : Option ℤ) → Keeps IsHeld (event_read os hci board r)
    unfolding event_read
    event_read-IsHeld none = search keeps_rules
    event_read-IsHeld (some (negsuc _)) = search keeps_rules
    event_read-IsHeld (some (pos _)) = search (keeps_rules, deliver-IsHeld) depth 10

    polled-IsHeld :
        (fuel : ℕ) (socket : ℤ) (r : Option ℤ) → Keeps IsHeld (polled os hci board fuel socket r)
    unfolding polled
    polled-IsHeld fuel socket none = search keeps_rules
    polled-IsHeld fuel socket (some (negsuc _)) = search keeps_rules
    polled-IsHeld fuel socket (some (pos _)) =
        search (keeps_rules, read_socket-IsHeld, event_read-IsHeld) depth 10

    crashed-IsHeld : (external : Bool) → Keeps IsHeld (crashed os hci board external)
    unfolding crashed holds
    crashed-IsHeld true = search (keeps_rules, Keeps-tell, notify-IsHeld, status-IsHeld) depth 20
    crashed-IsHeld false = search (keeps_rules, Keeps-modify) depth 10

  close_rx-IsFree :
      (external : Bool) (socket : ℤ) → Keeps (IsHeld false) (close_rx os hci board external socket)
  unfolding close_rx holds
  close_rx-IsFree external socket = record {
    at = λ h t p.
        let t0 = trylock enable_lock ∷ t in
        ground (arith, (crashed-IsHeld (holds os m t0) external).at h t0);
  }

  thread-IsFree :
      (external : Bool) (fuel rounds : ℕ)
      → Keeps (IsHeld false) (ant_hci_rx_thread os hci board external fuel rounds)
  unfolding create_hci_sock holds
  thread-IsFree external fuel rounds =
      rx_thread-Keeps os hci board (IsHeld false) external (status-IsHeld false external)
        (poll_socket-IsHeld false) (polled-IsHeld false) (close_rx-IsFree external)
        (search (keeps_rules, Keeps-call, Keeps-tell) depth 20)
        (λ sk a b c d. record { at = λ h t p. p }) fuel rounds

-- Whether the latest call closes a descriptor.
pub is_closing : ℤ → Trace → Bool
is_closing fd (close_file fd' ∷ t) = eq_ℤ fd fd'
is_closing fd _ = false

close_rx_closing :
    (os : Os) (hci : Hci) (board : Board) (external : Bool) (socket : ℤ) (h : Radio) (t : Trace)
    → is_closing socket (close_rx os hci board external socket h t).2 ≡ true
unfolding close_rx is_closing
close_rx_closing os hci board external socket h t = ground (arith, eq_ℤ_iff socket socket)

loop_done_closing :
    (os : Os) (hci : Hci) (board : Board) (external : Bool) (socket : ℤ) (r : Option (Unit {0}))
    (h : Radio) (t : Trace)
    → let (r', _, t') = rx_loop_done os hci board external socket r h t in
      r' ≢ none → is_closing socket t' ≡ true
unfolding rx_loop_done
loop_done_closing os hci board external socket none h t some_result = absurd (some_result refl)
loop_done_closing os hci board external socket (some _) h t some_result =
    close_rx_closing os hci board external socket h t

-- The receive thread releases the lock on every path: started with no mutex of a kind held, it leaves
-- none of that kind held. And it gets no socket, or it has not ended, or the last thing that it did was
-- to close its socket.
pub rx_thread_releases :
    (os : Os) (hci : Hci) (board : Board) (external : Bool) (fuel rounds : ℕ) (h : Radio)
    (t : Trace) (m : Mutex)
    → holds os m t ≡ false
    → let (socket, _, _) = create_hci_sock os h t in
      let (r, _, t') = ant_hci_rx_thread os hci board external fuel rounds h t in
      (holds os m t' ≡ false)
      × ((is_neg socket ≡ true) ⊎ ((r ≡ none) ⊎ (is_closing socket t' ≡ true)))
unfolding ant_hci_rx_thread
rx_thread_releases os hci board external fuel rounds h t m free =
    let (socket, h1, t1) = create_hci_sock os h t in
    let filter =
      set_filter socket type_mask_event_packet 0 event_mask_1_event_vendor
        (hci.htobs (ant_event_vendor_code board)) in
    let t2 = filter ∷ t1 in
    let (r, h3, t3) = rx_rounds os hci board external fuel rounds socket h1 t2 in
    let released = (thread-IsFree os hci board m external fuel rounds).at h t free in
    (
      released,
      ground (
        arith,
        close_rx_closing os hci board external socket h1 t2,
        loop_done_closing os hci board external socket r h3 t3,
      ),
    )
