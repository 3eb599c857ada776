-- ===== src/Bluez/Receive/Delivery.antt =====
-- What `ANTHCIRxThread` of src/bluez_hci/ant_rx.c hands to the client.
use linux_ant_hal.Base.{
  ℕ, zero, suc, ◌+◌, ◌≤◌, ◌≡◌, refl, Bool, true, false, ◌==◌, Option, none, some, List, [], ◌∷◌,
  arith, ℤ, pos, negsuc, length, take,
}
use linux_ant_hal.Types.{RadioStatus}
use linux_ant_hal.Os.{Os, Trace, ◌>>=◌, pure, rx_callback, read_file, poll_files}
use linux_ant_hal.Os.Keeps.{
  Keeps, keeps_rules, Keeps-if, Keeps-pure, Keeps-call, Keeps-tell, Keeps-modify,
}
use linux_ant_hal.Bluez.Framing.{
  Board, Hci, EventPacket, hci_event_total_overhead, hci_event_vendor_hdr_size, bytes_from,
  validate_hci_event_packet,
}
use linux_ant_hal.Bluez.Framing.Events.{validate_packet_iff}
use linux_ant_hal.Bluez.State.{Radio}
use linux_ant_hal.Bluez.Socket.{create_hci_sock}
use linux_ant_hal.Bluez.Radio.{notify, get_and_set_radio_status}
use linux_ant_hal.Bluez.Receive.Walk.{rx_thread-Keeps}
use linux_ant_hal.Bluez.Receive.{
  deliver, poll_socket, read_socket, event_read, polled, crashed, close_rx, ant_hci_rx_thread,
}

module _ (os : Os) (hci : Hci) (board : Board) where
  -- Of every message in a trace that was handed to the client: its length and the headers fit in the
  -- buffer of an event, and it has no more bytes than its length says.
  pub IsInEvent : Trace → Type 0
  IsInEvent [] = Unit {0}
  IsInEvent (rx_callback f n msg ∷ t) =
      (n + hci_event_total_overhead hci board ≤ hci.hci_max_event_size)
      × (length msg ≤ n)
      × IsInEvent t
  IsInEvent (_ ∷ t) = IsInEvent t

  abbrev Safe : Radio → Trace → Type 0
  Safe h t = IsInEvent t

  notify-Safe : (s : RadioStatus) → Keeps Safe (notify s)
  unfolding notify IsInEvent
  notify-Safe s = record { at = λ h t p. ground arith }

  status-Safe : (external : Bool) → Keeps Safe (get_and_set_radio_status os external)
  unfolding get_and_set_radio_status IsInEvent
  status-Safe true = search (keeps_rules, Keeps-call, Keeps-modify, notify-Safe) depth 20
  status-Safe false = search keeps_rules depth 10

  poll_socket-Safe : (fuel : ℕ) (socket : ℤ) → Keeps Safe (poll_socket os hci board fuel socket)
  unfolding poll_socket IsInEvent
  poll_socket-Safe zero socket = search keeps_rules
  poll_socket-Safe (suc fuel) socket = record {
    at = λ h t p.
        let t1 = poll_files (socket ∷ []) 2500 ∷ t in
        ground (arith, (poll_socket-Safe fuel socket).at h t1);
  }

  length-take_le : (n : ℕ) (xs : List ℕ) → length (take n xs) ≤ n
  length-take_le zero xs = omega arith
  length-take_le (suc n) [] = omega arith
  length-take_le (suc n) (x ∷ xs) = omega (arith, length-take_le n xs)

  deliver-Safe :
      (packet : EventPacket) (r : ℤ)
      → ((n : ℕ) → r ≡ pos n → n + hci_event_total_overhead hci board ≤ hci.hci_max_event_size)
      → Keeps Safe (deliver board packet r)
  unfolding deliver IsInEvent
  deliver-Safe packet (negsuc _) fits = search keeps_rules
  deliver-Safe packet (pos n) fits = record {
    at = λ h t p. ground (
      arith,
      fits n refl,
      length-take_le n (bytes_from (hci_event_vendor_hdr_size board) packet.vendor),
    );
  }

  event_read-Safe :
      (r : Option ℤ)
      → ((n : ℕ) → r ≡ some (pos n) → n ≤ hci.hci_max_event_size)
      → Keeps Safe (event_read os hci board r)
  unfolding event_read
  event_read-Safe none small = search keeps_rules
  event_read-Safe (some (negsuc _)) small = search keeps_rules
  event_read-Safe (some (pos len)) small = record {
    at = λ h t p.
        let packet = hci.as_event_packet (os.received t) in
        let r = validate_hci_event_packet hci board packet len in
        (deliver-Safe packet r (λ n e.
            omega (arith, small len refl, (validate_packet_iff hci board packet len n).0 e))).at
          h t p;
  }

  module _
      (bounded : (u : Trace) (fd : ℤ) (room n : ℕ)
        → os.ret u (read_file fd room) ≡ pos n
        → n ≤ room) where
    read_socket-Safe :
        (fuel : ℕ) (socket : ℤ) (h : Radio) (t : Trace) (n : ℕ)
        → IsInEvent t
        → let (r, _, t') = read_socket os hci board fuel socket h t in
          IsInEvent t' × (r ≡ some (pos n) → n ≤ hci.hci_max_event_size)
    unfolding read_socket IsInEvent
    read_socket-Safe zero socket h t n p = ground arith
    read_socket-Safe (suc fuel) socket h t n p =
        let t1 = read_file socket hci.hci_max_event_size ∷ t in
        ground
          (arith, bounded t socket hci.hci_max_event_size n, read_socket-Safe fuel socket h t1 n)

    polled-Safe :
        (fuel : ℕ) (socket : ℤ) (r : Option ℤ) → Keeps Safe (polled os hci board fuel socket r)
    unfolding polled
    polled-Safe fuel socket none = search keeps_rules
    polled-Safe fuel socket (some (negsuc _)) = search keeps_rules
    polled-Safe fuel socket (some (pos n)) =
        Keeps-if (n == 0) (pure (some true))
          (read_socket os hci board fuel socket >>= λ r. event_read os hci board r)
          (Keeps-pure (some true))
          record {
            at = λ h t p.
                let (r, h1, t1) = read_socket os hci board fuel socket h t in
                (event_read-Safe r (λ k. (read_socket-Safe fuel socket h t k p).1)).at h1 t1
                  (read_socket-Safe fuel socket h t 0 p).0;
          }

    crashed-Safe : (external : Bool) → Keeps Safe (crashed os hci board external)
    unfolding crashed IsInEvent
    crashed-Safe true = search (keeps_rules, Keeps-tell, notify-Safe, status-Safe) depth 20
    crashed-Safe false = search (keeps_rules, Keeps-modify) depth 10

    close_rx-Safe :
        (external : Bool) (socket : ℤ) → Keeps Safe (close_rx os hci board external socket)
    unfolding close_rx IsInEvent
    close_rx-Safe external socket =
        search (keeps_rules, Keeps-call, Keeps-tell, Keeps-modify, crashed-Safe) depth 30

    thread-Safe :
        (external : Bool) (fuel rounds : ℕ)
        → Keeps Safe (ant_hci_rx_thread os hci board external fuel rounds)
    unfolding create_hci_sock IsInEvent
    thread-Safe external fuel rounds =
        rx_thread-Keeps os hci board Safe external (status-Safe external) poll_socket-Safe
          polled-Safe (close_rx-Safe external)
          (search (keeps_rules, Keeps-call, Keeps-tell) depth 20)
          (λ sk a b c d. record { at = λ h t p. p }) fuel rounds

-- Where `read` returns at most as many bytes as there is room for: of every message that the receive
-- thread hands to the client, however long it runs, the length together with the headers fits in the
-- buffer of an event, and no more bytes are handed over than the length says.
pub rx_thread_bounds :
    (os : Os) (hci : Hci) (board : Board) (external : Bool) (fuel rounds : ℕ) (h : Radio)
    → ((u : Trace) (fd : ℤ) (room n : ℕ) → os.ret u (read_file fd room) ≡ pos n → n ≤ room)
    → IsInEvent os hci board (ant_hci_rx_thread os hci board external fuel rounds h []).2
unfolding IsInEvent
rx_thread_bounds os hci board external fuel rounds h bounded =
    (thread-Safe os hci board bounded external fuel rounds).at h [] tt
